-- ===== src/Cluster/Once.antt =====
-- A chunk leads to one write for each target: the peers that it passes on its way from the first one
-- of a chain or a tree, as set_send_chain and set_send_tree of src/client/file_sender.cpp link them.
use fcopy.Base.{
  ℕ, zero, suc, ◌+◌, ◌*◌, ◌≤◌, ◌<◌, ◌≡◌, refl, sym, ap, ap₂, ◌∙◌, Bytes, List, [], ◌∷◌, ◌++◌,
  Option, none, some, All, arith, lt→ltb, Option-cases, inl, inr, length, length-append, get_elem?,
  subst,
}
use fcopy.Base.Int.{ℤ}
use fcopy.Wire.Messages.{ChainTarget, SendFileReq}
use fcopy.Server.FileManager.{FileInfo, find}
use fcopy.Cluster.{Node, Nodes}
use fcopy.Cluster.Delivery.{Delivered, forwarded}
use fcopy.Cluster.Setup.{Holds}
use fcopy.Cluster.Spread.{get_elem?-length, get_elem?-none}
use fcopy.Cluster.Heap.{size, size-past, size-all}
use fcopy.Cluster.Writes.{Placed, gather, all_writes, all_writes-eq}
use fcopy.Client.Sender.{children, peer_at, SendMethod, chain, tree}

get_elem?-some :
    (ps : List ChainTarget) (j : ℕ) {p : ChainTarget} → get_elem? ps j ≡ some p → j < length ps
get_elem?-some [] j h = cc
get_elem?-some (q ∷ ps) zero h = omega arith
get_elem?-some (q ∷ ps) (suc j) h = omega (arith, get_elem?-some ps j h)

length-gather-append :
    (f : ChainTarget → List Placed) (xs ys : List ChainTarget)
    → length (gather f (xs ++ ys)) ≡ length (gather f xs) + length (gather f ys)
unfolding gather
length-gather-append f [] ys = omega arith
length-gather-append f (x ∷ xs) ys =
    length-append (f x) (gather f (xs ++ ys))
    ∙ omega (arith, length-gather-append f xs ys, length-append (f x) (gather f xs))

All-parts :
    (P : ChainTarget → Type 0) (xs ys : List ChainTarget) → All P (xs ++ ys) → All P xs × All P ys
All-parts P [] ys h = (tt, h)
All-parts P (x ∷ xs) ys (h, hs) = let (a, b) = All-parts P xs ys hs in ((h, a), b)

module _ (lost : ℤ) (c : Nodes) (content : Bytes) (ps : List ChainTarget) where
  -- The writes of the servers that a request is passed on to.
  abbrev below : ℕ → SendFileReq → ChainTarget → List Placed
  below hops req to = all_writes lost hops c to.host to.port (forwarded req to) content

  abbrev DeliveredTo : ℕ → SendFileReq → ChainTarget → Type 0
  DeliveredTo hops req to = Delivered lost hops c (forwarded req to) content to.host to.port

  -- What is proved of a request that is delivered over a number of hops.
  abbrev Counted : SendMethod → ℕ → ℕ → Type 0
  Counted method hops links =
      (j : ℕ) (p : ChainTarget) (req : SendFileReq)
      → get_elem? ps j ≡ some p
      → req.file_token ≡ p.file_token
      → length ps ≤ j + links
      → Delivered lost hops c req content p.host p.port
      → length (all_writes lost hops c p.host p.port req content) ≡ size method (length ps) links j

  peer_at-size :
      (method : SendMethod) (hops links k : ℕ) (req : SendFileReq)
      → Counted method hops links
      → length ps ≤ k + links
      → All (DeliveredTo hops req) (peer_at ps k)
      → length (gather (below hops req) (peer_at ps k)) ≡ size method (length ps) links k
  unfolding peer_at gather
  peer_at-size method hops links k req counted enough d = elim (Option-cases (get_elem? ps k)) [
    | inl absent ↦
        rw (absent, peer_at)
          (sym (size-past (length ps) method links k (get_elem?-length ps k absent)))
    | inr (p, there) ↦
        let at : All (DeliveredTo hops req) (p ∷ []) = rw (there, peer_at) at d in
        rw (there, peer_at)
          (length-append (below hops req p) []
            ∙ omega (arith, counted k p (forwarded req p) there refl enough at.0))
  ]

  children-size :
      (method : SendMethod) (hops links j : ℕ) (req : SendFileReq)
      → Counted method hops links
      → j < length ps
      → length ps ≤ suc j + links
      → All (DeliveredTo hops req) (children method ps j)
      → suc (length (gather (below hops req) (children method ps j)))
        ≡ size method (length ps) (suc links) j
  unfolding children size
  children-size chain hops links j req counted lt enough d =
      rw (lt→ltb j (length ps) lt)
        (ap suc (peer_at-size chain hops links (j + 1) req counted (omega arith) d))
  children-size tree hops links j req counted lt enough d =
      let (left, right) =
        All-parts (DeliveredTo hops req) (peer_at ps (j * 2 + 1)) (peer_at ps (j * 2 + 2)) d in
      size_tree (
        length-gather-append (below hops req) (peer_at ps (j * 2 + 1)) (peer_at ps (j * 2 + 2))
        ∙ ap₂ (λ a b. a + b)
            (peer_at-size tree hops links (j * 2 + 1) req counted (omega arith) left)
            (peer_at-size tree hops links (j * 2 + 2) req counted (omega arith) right))
    where
      size_tree :
          {k : ℕ}
          → k ≡ size tree (length ps) links (j * 2 + 1) + size tree (length ps) links (j * 2 + 2)
          → suc k ≡ size tree (length ps) (suc links) j
      size_tree e = rw (lt→ltb j (length ps) lt) (ap suc e)

  module _ (method : SendMethod)
      (held : (k : ℕ) (p : ChainTarget)
        → get_elem? ps k ≡ some p
        → Holds c p (children method ps k)) where
    -- The request that has come to a peer leads to one write for it and for each one behind it.
    writes-size : (hops links : ℕ) → Counted method hops links
    writes-size zero links j p req there token enough d = absurd d
    writes-size (suc hops) zero j p req there token enough d =
        let gone = get_elem?-none ps j (omega arith) in
        let wrong : ◌≡◌ {A = Option ChainTarget} none (some p) = sym gone ∙ there in cc
    writes-size (suc hops) (suc links) j p req there token enough
          (node, at, info, present, written, stored, passed) =
        let v = held j p there in
        let same : v.node ≡ node = cc in
        let found : find p.file_token node.manager.fmap ≡ some v.info =
          subst (λ (n : Node). find p.file_token n.manager.fmap ≡ some v.info) same v.present in
        let present' = subst (λ t. find t node.manager.fmap ≡ some info) token present in
        let same_info : info ≡ v.info = cc in
        let targets = ap (λ (i : FileInfo). i.targets) same_info ∙ v.linked in
        let inside : j < length ps = omega (arith, get_elem?-some ps j there) in
        ap length (all_writes-eq lost hops c node req content info present written p.host p.port at)
        ∙ ap (λ ts. suc (length (gather (below hops req) ts))) targets
        ∙ children-size method hops links j req (writes-size hops links) inside (omega arith)
            (subst (All (DeliveredTo hops req)) targets passed)

    -- A request that the first peer answers without an error leads to as many writes as there are
    -- peers.
    pub length-all_writes :
        (hops : ℕ) (p : ChainTarget) (req : SendFileReq)
        → get_elem? ps 0 ≡ some p
        → req.file_token ≡ p.file_token
        → Delivered lost hops c req content p.host p.port
        → length (all_writes lost hops c p.host p.port req content) ≡ length ps
    length-all_writes hops p req there token d =
        writes-size hops (length ps) 0 p req there token (omega arith) d
        ∙ size-all (length ps) method (length ps) (omega arith)
