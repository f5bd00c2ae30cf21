-- ===== src/Cluster/Followers.antt =====
-- Whom set_send_chain and set_send_tree of src/client/file_sender.cpp mean a peer to pass chunks on
-- to, told by the peer that each one gets them from.
use fcopy.Base.{
  ℕ, zero, suc, ◌+◌, ◌-◌, ◌*◌, ◌/◌, ◌<◌, ◌≡◌, refl, sym, ap, ◌∙◌, List, [], ◌∷◌, ◌++◌, Bool, true,
  false, ◌&&◌, if◌then◌else◌, ltb, ◌==◌, arith,
}
use fcopy.Wire.Messages.{ChainTarget}
use fcopy.Client.Sender.{children, peer_at, SendMethod, chain, tree}

-- The peer that a peer behind the first one gets its chunks from: the one before it in a chain, and
-- in a tree the one that stands above it in a binary heap.
abbrev pub parent : SendMethod → ℕ → ℕ
parent chain k = k - 1
parent tree k = (k - 1) / 2

-- Among the peers from the k-th on, those that get their chunks from the j-th, in their order.
unfoldable pub followers : SendMethod → ℕ → ℕ → List ChainTarget → List ChainTarget
followers method j k [] = []
followers method j k (p ∷ ps) =
    let rest = followers method j (suc k) ps in
    if ltb 0 k && parent method k == j then p ∷ rest else rest

-- Whether the k-th peer gets its chunks from the j-th.
abbrev follows : SendMethod → ℕ → ℕ → Bool
follows method j k = ltb 0 k && parent method k == j

module _ (j : ℕ) where
  chain-past : (ps : List ChainTarget) (k : ℕ) → suc j < k → followers chain j k ps ≡ []
  unfolding followers
  chain-past [] k h = refl
  chain-past (p ∷ ps) k h =
      let other : follows chain j k ≡ false = ground arith in
      rw other (chain-past ps (suc k) (omega arith))

  chain-at :
      (ps : List ChainTarget) (k d : ℕ) → k + d ≡ suc j → followers chain j k ps ≡ peer_at ps d
  unfolding followers peer_at
  chain-at [] k d h = refl
  chain-at (p ∷ ps) k zero h =
      let here : follows chain j k ≡ true = ground arith in
      rw here (ap (◌∷◌ p) (chain-past ps (suc k) (omega arith)))
  chain-at (p ∷ ps) k (suc d) h =
      let other : follows chain j k ≡ false = ground arith in
      rw other (chain-at ps (suc k) d (omega arith))

  tree-past : (ps : List ChainTarget) (k : ℕ) → j * 2 + 2 < k → followers tree j k ps ≡ []
  unfolding followers
  tree-past [] k h = refl
  tree-past (p ∷ ps) k h =
      let other : follows tree j k ≡ false = ground arith in
      rw other (tree-past ps (suc k) (omega arith))

  tree-last : (ps : List ChainTarget) (k : ℕ) → k ≡ j * 2 + 2 → followers tree j k ps ≡ peer_at ps 0
  unfolding followers peer_at
  tree-last [] k h = refl
  tree-last (p ∷ ps) k h =
      let here : follows tree j k ≡ true = ground arith in
      rw here (ap (◌∷◌ p) (tree-past ps (suc k) (omega arith)))

  tree-at :
      (ps : List ChainTarget) (k d : ℕ)
      → k + d ≡ j * 2 + 1
      → followers tree j k ps ≡ peer_at ps d ++ peer_at ps (suc d)
  unfolding followers peer_at
  tree-at [] k d h = refl
  tree-at (p ∷ ps) k zero h =
      let here : follows tree j k ≡ true = ground arith in
      rw here (ap (◌∷◌ p) (tree-last ps (suc k) (omega arith)))
  tree-at (p ∷ ps) k (suc d) h =
      let other : follows tree j k ≡ false = ground arith in
      rw other (tree-at ps (suc k) d (omega arith))

-- The targets that a peer is given are those that are to get their chunks from it.
pub children-followers :
    (method : SendMethod) (ps : List ChainTarget) (j : ℕ)
    → children method ps j ≡ followers method j 0 ps
unfolding children
children-followers chain ps j =
    let next : j + 1 ≡ suc j = omega arith in
    ap (peer_at ps) next ∙ sym (chain-at j ps 0 (suc j) (omega arith))
children-followers tree ps j =
    let next : j * 2 + 2 ≡ suc (j * 2 + 1) = omega arith in
    ap (λ k. peer_at ps (j * 2 + 1) ++ peer_at ps k) next
    ∙ sym (tree-at j ps 0 (j * 2 + 1) (omega arith))
