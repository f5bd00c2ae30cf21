-- ===== src/Cluster/Everywhere.antt =====
-- What FileSender has achieved when it reports no error: every target has every chunk.
use fcopy.Base.{
  ℕ, zero, suc, ◌+◌, ◌-◌, ◌*◌, ◌/◌, ◌≤◌, ◌<◌, ◌≡◌, refl, sym, ap, ◌∙◌, Bytes, List, [], ◌∷◌, ◌++◌,
  Option, none, some, All, arith, ◌==◌, Bool-cases, Option-cases, inl, inr, get_elem?, subst,
}
use fcopy.Base.Int.{ℤ}
use fcopy.Wire.Messages.{ChainTarget, SendFileReq}
use fcopy.Server.FileManager.{FileInfo, find}
use fcopy.Cluster.{Node, Nodes}
use fcopy.Cluster.Delivery.{Delivered, forwarded, data_write}
use fcopy.Cluster.Followers.{parent}
use fcopy.Cluster.Session.{address}
use fcopy.Cluster.Writes.{
  Placed, Within, gather, all_writes, all_writes-eq, gather-head, gather-tail,
}
use mathlib.Core.List.{Mem, mem-cons_self, mem-cons_of_mem}
use fcopy.Cluster.Setup.{Holds}
use fcopy.Cluster.Spread.{get_elem?-length, get_elem?-none}
use fcopy.Client.Sender.{children, peer_at, SendMethod, chain, tree}

-- Among the writes that were made is one, with success, by the server of a peer: the data, padded, at
-- the offset of the file that the server has for the peer's token.
abbrev pub Stored : Nodes → List Placed → Bytes → ℕ → ChainTarget → Type 0
Stored c made content offset p =
    (node : Node) × (c p.host p.port ≡ some node)
    × (info : FileInfo) × (find p.file_token node.manager.fmap ≡ some info)
    × Mem (address p, data_write info content offset) made
    × (node.pwrite (data_write info content offset) ≡ none)

parent-le : (method : SendMethod) (j : ℕ) → parent method j ≤ j
parent-le chain j = omega arith
parent-le tree j = omega arith

parent-lt : (method : SendMethod) (j bound : ℕ) → j < bound → parent method (suc j) < bound
parent-lt chain j bound h = omega arith
parent-lt tree j bound h = omega arith

module _ (ps : List ChainTarget) where
  peer_at-here :
      (P : ChainTarget → Type 0) (k : ℕ) (p : ChainTarget)
      → get_elem? ps k ≡ some p
      → All P (peer_at ps k)
      → P p
  unfolding peer_at
  peer_at-here P k p there h = (subst (All P) (at_some p there) h).0
    where
      at_some : (q : ChainTarget) → get_elem? ps k ≡ some q → peer_at ps k ≡ q ∷ []
      at_some q e = rw (e, peer_at) refl

  All-append_left :
      (P : ChainTarget → Type 0) (xs ys : List ChainTarget) → All P (xs ++ ys) → All P xs
  All-append_left P [] ys h = tt
  All-append_left P (x ∷ xs) ys h = (h.0, All-append_left P xs ys h.1)

  All-append_right :
      (P : ChainTarget → Type 0) (xs ys : List ChainTarget) → All P (xs ++ ys) → All P ys
  All-append_right P [] ys h = h
  All-append_right P (x ∷ xs) ys h = All-append_right P xs ys h.1

  -- What holds of all targets of the parent of a peer holds of the peer.
  child-All :
      (method : SendMethod) (P : ChainTarget → Type 0) (j : ℕ) (p : ChainTarget)
      → 0 < j
      → get_elem? ps j ≡ some p
      → All P (children method ps (parent method j))
      → P p
  unfolding children
  child-All chain P j p h there v =
      let back : j - 1 + 1 ≡ j = omega arith in
      peer_at-here P (j - 1 + 1) p (ap (get_elem? ps) back ∙ there) v
  child-All tree P j p h there v = elim (Bool-cases ((j - 1) / 2 * 2 + 1 == j)) [
    | inl odd ↦
        let back : (j - 1) / 2 * 2 + 1 ≡ j = ground arith in
        peer_at-here P ((j - 1) / 2 * 2 + 1) p (ap (get_elem? ps) back ∙ there)
          (All-append_left P _ _ v)
    | inr even ↦
        let back : (j - 1) / 2 * 2 + 2 ≡ j = ground arith in
        peer_at-here P ((j - 1) / 2 * 2 + 2) p (ap (get_elem? ps) back ∙ there)
          (All-append_right P (peer_at ps ((j - 1) / 2 * 2 + 1)) _ v)
  ]

  earlier :
      (j k : ℕ) (p : ChainTarget)
      → get_elem? ps j ≡ some p
      → k ≤ j
      → (q : ChainTarget) × (get_elem? ps k ≡ some q)
  earlier j k p there le = elim (Option-cases (get_elem? ps k)) [
    | inl absent ↦
        let short = get_elem?-length ps k absent in
        let gone = get_elem?-none ps j (omega arith) in
        let wrong : ◌≡◌ {A = Option ChainTarget} none (some p) = sym gone ∙ there in cc
    | inr found ↦ found
  ]

-- A request with the token and offset, delivered at a peer, whose writes are among those made.
abbrev pub Arrived : ℤ → Nodes → List Placed → Bytes → ℕ → ChainTarget → Type 0
Arrived lost c made content offset p =
    (hops : ℕ) × (req : SendFileReq) × (req.file_token ≡ p.file_token)
    × (req.offset ≡ offset)
    × Delivered lost hops c req content p.host p.port
    × Within (all_writes lost hops c p.host p.port req content) made

pub Arrived-Stored :
    (lost : ℤ) (c : Nodes) (made : List Placed) (content : Bytes) (offset : ℕ) (p : ChainTarget)
    → Arrived lost c made content offset p
    → Stored c made content offset p
Arrived-Stored lost c made content offset p (zero, req, token, at, d, within) = absurd d
Arrived-Stored lost c made content offset p
      (suc hops, req, token, at, (node, there, info, present, written, stored, below), within) =
    let eq = all_writes-eq lost hops c node req content info present written p.host p.port there in
    let first =
      subst (Mem (address p, data_write info content req.offset)) (sym eq) mem-cons_self in
    (
      node,
      there,
      info,
      subst (λ t. find t node.manager.fmap ≡ some info) token present,
      subst (λ o. Mem (address p, data_write info content o) made) at (within _ first),
      subst (λ o. node.pwrite (data_write info content o) ≡ none) at stored,
    )

module _ (lost : ℤ) (c : Nodes) (made : List Placed) (content : Bytes) (offset : ℕ) where
  All-Arrived :
      (hops : ℕ) (req : SendFileReq) (targets : List ChainTarget)
      → req.offset ≡ offset
      → Within
          (gather (λ to. all_writes lost hops c to.host to.port (forwarded req to) content) targets)
          made
      → All (λ to. Delivered lost hops c (forwarded req to) content to.host to.port) targets
      → All (Arrived lost c made content offset) targets
  All-Arrived hops req [] at within d = tt
  All-Arrived hops req (to ∷ targets) at within (d, ds) =
      let f = λ (x : ChainTarget). all_writes lost hops c x.host x.port (forwarded req x) content in
      (
        (hops, forwarded req to, refl, at, d, λ w h. within w (gather-head f to targets w h)),
        All-Arrived hops req targets at (λ w h. within w (gather-tail f to targets w h)) ds,
      )

  -- A peer passes a request on to the targets of its file.
  Arrived-below :
      (p : ChainTarget) (targets : List ChainTarget)
      → Holds c p targets
      → Arrived lost c made content offset p
      → All (Arrived lost c made content offset) targets
  Arrived-below p targets v (zero, req, token, at, d, within) = absurd d
  Arrived-below p targets v
        (suc hops, req, token, at, (node, there, info, present, written, stored, below), within) =
      let same : v.node ≡ node = cc in
      let found : find p.file_token node.manager.fmap ≡ some v.info =
        subst (λ (n : Node). find p.file_token n.manager.fmap ≡ some v.info) same v.present in
      let present' = subst (λ t. find t node.manager.fmap ≡ some info) token present in
      let same_info : info ≡ v.info = cc in
      let eq =
        all_writes-eq lost hops c node req content info present written p.host p.port there in
      subst (All (Arrived lost c made content offset))
        (ap (λ (i : FileInfo). i.targets) same_info ∙ v.linked)
        (All-Arrived hops req info.targets at
          (λ w h. within w (subst (Mem w) (sym eq) (mem-cons_of_mem _ h))) below)

module _ (lost : ℤ) (c : Nodes) (made : List Placed) (content : Bytes) (offset : ℕ)
    (method : SendMethod) (ps : List ChainTarget)
    (held : (k : ℕ) (p : ChainTarget)
      → get_elem? ps k ≡ some p
      → Holds c p (children method ps k)) where
  -- From the first peer to every other one.
  pub peers-Arrived :
      (bound j : ℕ) (p : ChainTarget)
      → j < bound
      → get_elem? ps j ≡ some p
      → ((q : ChainTarget) → get_elem? ps 0 ≡ some q → Arrived lost c made content offset q)
      → Arrived lost c made content offset p
  peers-Arrived zero j p h there root = absurd (omega arith)
  peers-Arrived (suc bound) zero p h there root = root p there
  peers-Arrived (suc bound) (suc j) p h there root =
      let (q, at) = earlier ps (suc j) (parent method (suc j)) p there (parent-le method (suc j)) in
      child-All ps method (Arrived lost c made content offset) (suc j) p (omega arith) there (
        Arrived-below lost c made content offset q (children method ps (parent method (suc j)))
          (held (parent method (suc j)) q at)
          (peers-Arrived bound (parent method (suc j)) q (parent-lt method j bound (omega arith)) at
            root))
