-- ===== src/Cluster/Session.antt =====
-- FileSender::create_file over the servers: after it, every target has the file, linked as
-- set_send_chain or set_send_tree wants it.
use fcopy.Base.{
  ℕ, suc, ◌≡◌, refl, ap, ◌∙◌, Bytes, List, [], ◌∷◌, some, false, All, Bool-cases, inl, inr, length,
}
use fcopy.Base.Int.{ℤ, pos, is_zero, is_zero→eq, is_zero→ne}
use fcopy.Wire.Messages.{Command, ChainTarget, CreateFileReq, create_req}
use fcopy.Wire.Stream.{Message, make}
use fcopy.Net.{RemoteTarget, same_address, same_address_comm, Apart, reply_error}
use fcopy.Cluster.{Node, Nodes, ask}
use fcopy.Cluster.Setup.{Opens, Holds, ask-other, ask-create}
use fcopy.Client.Sender.{Network, peers, open_all}

-- The network of a client: the servers, with as many hops as are wanted.
abbrev pub servers : ℤ → ℕ → Network
servers lost hops = record {
  World = Nodes;
  request = λ c t m. ask lost (suc hops) c t.host t.port m;
}

-- There is a server, and what it reports when it opens files is as in Opens.
abbrev pub Serves : Nodes → RemoteTarget → Type 0
Serves c t = (node : Node) × (c t.host t.port ≡ some node) × Opens node

-- The i-th peer and those behind it hold files with the targets that `next` names.
abbrev pub Linked : Nodes → (ℕ → List ChainTarget) → ℕ → List ChainTarget → Type 0
Linked c next i [] = Unit {0}
Linked c next i (p ∷ ps) = Holds c p (next i) × Linked c next (suc i) ps

abbrev pub address : ChainTarget → RemoteTarget
address p = record { host = p.host; port = p.port }

pub peer_addresses :
    (targets : List RemoteTarget) (tokens : List Bytes) (t : RemoteTarget)
    → All (λ u. same_address t u ≡ false) targets
    → All (λ p. same_address t (address p) ≡ false) (peers targets tokens)
unfolding peers
peer_addresses [] tokens t h = tt
peer_addresses (u ∷ targets) [] t h = tt
peer_addresses (u ∷ targets) (k ∷ tokens) t (h, hs) = (h, peer_addresses targets tokens t hs)

module _ (lost : ℤ) (hops : ℕ) where
  -- What happens at the targets leaves every other address alone.
  open_all-other :
      (req : CreateFileReq) (targets : List RemoteTarget) (c : Nodes) (t : RemoteTarget)
      → All (λ u. same_address t u ≡ false) targets
      → (open_all (servers lost hops) req targets c).0 t.host t.port ≡ c t.host t.port
  unfolding open_all
  open_all-other req [] c t apart = refl
  open_all-other req (u ∷ targets) c t (apart, rest) =
      let m = make (create_req req) in
      let first =
        ask-other lost (suc hops) c u.host t.host u.port t.port m (same_address_comm u t ∙ apart) in
      elim (Bool-cases (
        is_zero (reply_error Command.create_file_resp (ask lost (suc hops) c u.host u.port m).1))) [
          | inl fine ↦ rw fine (open_all-other req targets _ t rest ∙ first)
          | inr failed ↦ rw failed first
        ]

  Serves-all :
      (c c' : Nodes) (targets : List RemoteTarget)
      → All (λ u. c' u.host u.port ≡ c u.host u.port) targets
      → All (Serves c) targets
      → All (Serves c') targets
  Serves-all c c' [] same v = tt
  Serves-all c c' (u ∷ targets) (e, same) ((node, there, opens), v) =
      ((node, e ∙ there, opens), Serves-all c c' targets same v)

  others :
      (c : Nodes) (t : RemoteTarget) (m : Message) (targets : List RemoteTarget)
      → All (λ u. same_address t u ≡ false) targets
      → All (λ u. (ask lost (suc hops) c t.host t.port m).0 u.host u.port ≡ c u.host u.port) targets
  others c t m [] apart = tt
  others c t m (u ∷ targets) (apart, rest) =
      (ask-other lost (suc hops) c t.host u.host t.port u.port m apart, others c t m targets rest)

  pub Holds-at :
      (c c' : Nodes) (p : ChainTarget) (targets : List ChainTarget)
      → c' p.host p.port ≡ c p.host p.port
      → Holds c p targets
      → Holds c' p targets
  Holds-at c c' p targets same v = record {
    node = v.node;
    there = same ∙ v.there;
    opens = v.opens;
    info = v.info;
    present = v.present;
    linked = v.linked;
  }

  -- After remote_open every target has a file without targets, under its token.
  pub open_all-Linked :
      (req : CreateFileReq) (targets : List RemoteTarget) (c : Nodes) (i : ℕ)
      → Apart targets
      → All (Serves c) targets
      → let (c', error, tokens) = open_all (servers lost hops) req targets c in
        error ≡ pos 0
        → (length tokens ≡ length targets) × Linked c' (λ j. []) i (peers targets tokens)
  unfolding open_all peers make
  open_all-Linked req [] c i apart v = λ ok. (refl, tt)
  open_all-Linked req (t ∷ targets) c i (apart, rest) ((node, there, opens), v) =
      let m = make (create_req req) in
      let c1 = (ask lost (suc hops) c t.host t.port m).0 in
      let reply = (ask lost (suc hops) c t.host t.port m).1 in
      elim (Bool-cases (is_zero (reply_error Command.create_file_resp reply))) [
        | inl fine ↦ rw fine (λ ok.
            let (len, linked) =
              open_all-Linked req targets c1 (suc i) rest
                (Serves-all c c1 targets (others c t m targets apart) v) ok in
            let made =
              ask-create lost hops c t.host t.port node m.base req there opens
                (is_zero→eq _ fine) in
            (ap suc len, (Holds-at c1 _ _ [] (open_all-other req targets c1 t apart) made, linked)))
        | inr failed ↦ rw failed (λ ok. absurd (is_zero→ne _ failed ok))
      ]
