-- ===== src/Cluster/Spread.antt =====
-- A chunk from the client to every target, along the links of a chain or a tree.
use fcopy.Base.{
  ℕ, zero, suc, ◌+◌, ◌*◌, ◌≤◌, ◌<◌, ◌≡◌, refl, sym, ◌∙◌, List, [], ◌∷◌, ◌++◌, Option, none, some,
  All, All-append, arith, Option-cases, inl, inr, length, get_elem?, subst,
}
use fcopy.Wire.Messages.{ChainTarget}
use fcopy.Cluster.{Nodes}
use fcopy.Cluster.Reaching.{Ready}
use fcopy.Cluster.Setup.{Holds}
use fcopy.Cluster.Errors.{AllWorks}
use fcopy.Cluster.Session.{Linked}
use fcopy.Client.Sender.{children, peer_at, SendMethod, chain, tree}

module _ (ps : List ChainTarget) where
  -- A peer further on.
  abbrev Later : ℕ → ChainTarget → Type 0
  Later j p = (k : ℕ) × (j < k) × (get_elem? ps k ≡ some p)

  peer_at-Later : (j k : ℕ) → j < k → All (Later j) (peer_at ps k)
  unfolding peer_at
  peer_at-Later j k h = elim (Option-cases (get_elem? ps k)) [
    | inl absent ↦ rw (absent, peer_at) tt
    | inr (p, there) ↦ rw (there, peer_at) ((k, h, there), tt)
  ]

  -- The targets of a peer stand behind it.
  children-Later : (method : SendMethod) (j : ℕ) → All (Later j) (children method ps j)
  unfolding children
  children-Later chain j = peer_at-Later j (j + 1) (omega arith)
  children-Later tree j =
      All-append (Later j) (peer_at ps (j * 2 + 1)) (peer_at ps (j * 2 + 2))
        (peer_at-Later j (j * 2 + 1) (omega arith)) (peer_at-Later j (j * 2 + 2) (omega arith))

pub get_elem?-length : (ps : List ChainTarget) (k : ℕ) → get_elem? ps k ≡ none → length ps ≤ k
get_elem?-length [] k h = omega arith
get_elem?-length (p ∷ ps) zero h = cc
get_elem?-length (p ∷ ps) (suc k) h = omega (arith, get_elem?-length ps k h)

pub get_elem?-none : (ps : List ChainTarget) (k : ℕ) → length ps ≤ k → get_elem? ps k ≡ none
get_elem?-none [] k h = refl
get_elem?-none (p ∷ ps) zero h = absurd (omega arith)
get_elem?-none (p ∷ ps) (suc k) h = get_elem?-none ps k (omega arith)

peer_at-length : (ps : List ChainTarget) (k : ℕ) → peer_at ps k ≡ [] → length ps ≤ k
unfolding peer_at
peer_at-length ps k h = elim (Option-cases (get_elem? ps k)) [
  | inl absent ↦ get_elem?-length ps k absent
  | inr (p, there) ↦
      let wrong : ◌≡◌ {A = List ChainTarget} (p ∷ []) [] = rw (there, peer_at) at h in cc
]

peer_at-none : (ps : List ChainTarget) (k : ℕ) → length ps ≤ k → peer_at ps k ≡ []
unfolding peer_at
peer_at-none ps k h = rw (get_elem?-none ps k h, peer_at) refl

append_left_empty : (xs ys : List ChainTarget) → xs ++ ys ≡ [] → xs ≡ []
append_left_empty [] ys h = refl
append_left_empty (x ∷ xs) ys h = cc

-- Behind a peer without targets there are only such peers.
pub children-last :
    (method : SendMethod) (ps : List ChainTarget) (j : ℕ)
    → children method ps j ≡ []
    → (k : ℕ) → j ≤ k
    → children method ps k ≡ []
unfolding children
children-last chain ps j h k le =
    peer_at-none ps (k + 1) (omega (arith, peer_at-length ps (j + 1) h))
children-last tree ps j h k le =
    let short = peer_at-length ps (j * 2 + 1) (append_left_empty _ _ h) in
    rw (peer_at-none ps (k * 2 + 1) (omega arith), peer_at-none ps (k * 2 + 2) (omega arith)) refl

Linked-get :
    (c : Nodes) (next : ℕ → List ChainTarget) (ps : List ChainTarget) (i k : ℕ) (p : ChainTarget)
    → Linked c next i ps
    → get_elem? ps k ≡ some p
    → Holds c p (next (i + k))
Linked-get c next [] i k p v h = cc
Linked-get c next (q ∷ ps) i zero p (v, vs) h =
    let same : q ≡ p = cc in
    let here : i ≡ i + 0 = omega arith in
    subst (λ x. Holds c x (next (i + 0))) same (subst (λ n. Holds c q (next n)) here v)
Linked-get c next (q ∷ ps) i (suc k) p (v, vs) h =
    let further : suc i + k ≡ i + suc k = omega arith in
    subst (λ n. Holds c p (next n)) further (Linked-get c next ps (suc i) k p vs h)

module _ (c : Nodes) (method : SendMethod) (ps : List ChainTarget)
    (linked : Linked c (children method ps) 0 ps) where
  -- Each peer's file has the targets that it is meant to have.
  pub held : (k : ℕ) (p : ChainTarget) → get_elem? ps k ≡ some p → Holds c p (children method ps k)
  held k p h =
      let same : 0 + k ≡ k = omega arith in
      subst (λ n. Holds c p (children method ps n)) same
        (Linked-get c (children method ps) ps 0 k p linked h)

  All-Ready :
      (depth j : ℕ) (targets : List ChainTarget)
      → ((k : ℕ) (p : ChainTarget)
          → j < k
          → get_elem? ps k ≡ some p
          → Ready depth c p.file_token p.host p.port)
      → All (Later ps j) targets
      → All (λ to. Ready depth c to.file_token to.host to.port) targets
  All-Ready depth j [] rec h = tt
  All-Ready depth j (to ∷ targets) rec ((k, lt, there), h) =
      (rec k to lt there, All-Ready depth j targets rec h)

  -- Each peer is ready over as many servers as there are from it on.
  pub Linked-Ready :
      AllWorks c
      → (depth j : ℕ) (p : ChainTarget) → get_elem? ps j ≡ some p
      → length ps ≤ j + depth
      → Ready depth c p.file_token p.host p.port
  Linked-Ready works zero j p there short =
      let gone = get_elem?-none ps j (omega arith) in
      let wrong : ◌≡◌ {A = Option ChainTarget} none (some p) = sym gone ∙ there in cc
  Linked-Ready works (suc depth) j p there short =
      let h = held j p there in
      (
        h.node,
        h.there,
        h.info,
        h.present,
        works p.host p.port h.node h.there,
        subst (All (λ to. Ready depth c to.file_token to.host to.port)) (sym h.linked) (
            All-Ready depth j (children method ps j)
              (λ k q lt at. Linked-Ready works depth k q at (omega arith))
              (children-Later ps method j)),
      )
