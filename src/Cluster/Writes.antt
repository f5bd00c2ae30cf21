-- ===== src/Cluster/Writes.antt =====
-- The writes that a SendFileReq leads to at all servers that it reaches, by handle_send_file and
-- send_chain of src/server/service.cpp.
use fcopy.Base.{
  ℕ, zero, suc, ◌≡◌, refl, sym, ◌∙◌, Bytes, List, [], ◌∷◌, ◌++◌, map, none, some, true, not, ◌&&◌,
  leb, ◌==◌, if◌then◌else◌, length, Bool-cases, inl, inr,
}
use mathlib.Core.List.{Mem, mem-append_left, mem-append_right}
use fcopy.Base.Int.{ℤ}
use fcopy.Wire.Messages.{ChainTarget, SendFileReq, send_req}
use fcopy.Wire.Stream.{Message}
use fcopy.Net.{RemoteTarget}
use fcopy.Server.FileManager.{FileInfo, FileManager, find, get_fd}
use fcopy.Server.Service.{Environment, Write, handle_send_file, serve_send}
use fcopy.Cluster.{Node, Nodes}
use fcopy.Cluster.Delivery.{forwarded, writes_at, data_write}

-- The targets that handle_send_file sends requests to: none without a file, or where the request may
-- not be passed on.
unfoldable pub passed_on : FileManager → SendFileReq → List ChainTarget
passed_on m req = elim (find req.file_token m.fmap) [
  | none ↦ []
  | some info ↦
      if leb req.max_chain_len 1 && not (length info.targets == 0) then [] else info.targets
]

-- A write with the address of its server.
abbrev pub Placed : Type 0
Placed = RemoteTarget × Write

unfoldable pub gather : (ChainTarget → List Placed) → List ChainTarget → List Placed
gather f [] = []
gather f (to ∷ targets) = f to ++ gather f targets

-- The writes of the server at an address for a SendFileReq, and of those that it passes it on to.
unfoldable pub all_writes : ℤ → ℕ → Nodes → Bytes → ℕ → SendFileReq → Bytes → List Placed
unfolding passed_on gather
all_writes lost zero c host port req content = []
all_writes lost (suc hops) c host port req content = elim (c host port) [
  | none ↦ []
  | some node ↦
      map (λ w. (record { host = host; port = port }, w)) (writes_at lost hops c node req content)
      ++ gather (λ to. all_writes lost hops c to.host to.port (forwarded req to) content)
          (passed_on node.manager req)
]

-- The same for a message, which leads to writes only if it is a SendFileReq.
unfoldable pub message_writes : ℤ → ℕ → Nodes → Bytes → ℕ → Message → List Placed
unfolding all_writes
message_writes lost hops c host port m = elim m.payload as (λ x. List Placed) [
  | send_req req ↦ all_writes lost hops c host port req m.base.data_view
  | _ ↦ []
]

-- Every write of one list stands in the other.
abbrev pub Within : List Placed → List Placed → Type 0
Within xs ys = (w : Placed) → Mem w xs → Mem w ys

-- A request that may not be passed on writes nothing.
refused-writes :
    (env : Environment) (m : FileManager) (req : SendFileReq) (content : Bytes) (info : FileInfo)
    → find req.file_token m.fmap ≡ some info
    → (leb req.max_chain_len 1 && not (length info.targets == 0)) ≡ true
    → (handle_send_file env m req content).1 ≡ []
unfolding handle_send_file get_fd serve_send
refused-writes env m req content info present over = rw (present, get_fd) (rw over refl)

module _ (lost : ℤ) (hops : ℕ) (c : Nodes) (node : Node) (req : SendFileReq) (content : Bytes)
    (info : FileInfo) (present : find req.file_token node.manager.fmap ≡ some info)
    (written : writes_at lost hops c node req content
      ≡ data_write info content req.offset ∷ []) where
  -- A server that has written has also passed the request on.
  passed_on-targets : passed_on node.manager req ≡ info.targets
  unfolding passed_on
  passed_on-targets =
      elim (Bool-cases (leb req.max_chain_len 1 && not (length info.targets == 0))) [
        | inl over ↦
            let none_made = refused-writes _ node.manager req content info present over in
            let wrong : ◌≡◌ {A = List Write} [] (data_write info content req.offset ∷ []) =
              sym none_made ∙ written in
            cc
        | inr fine ↦ rw (present, passed_on) (rw fine refl)
      ]

  module _ (host : Bytes) (port : ℕ) (there : c host port ≡ some node) where
    pub all_writes-eq :
        all_writes lost (suc hops) c host port req content
        ≡ (record { host = host; port = port }, data_write info content req.offset)
          ∷ gather
              (λ to. all_writes lost hops c to.host to.port (forwarded req to) content)
              info.targets
    unfolding all_writes
    all_writes-eq = rw (there, all_writes) (rw (written, passed_on-targets) refl)

-- What a target leads to stands in what all targets lead to.
pub gather-head :
    (f : ChainTarget → List Placed) (to : ChainTarget) (targets : List ChainTarget)
    → Within (f to) (gather f (to ∷ targets))
unfolding gather
gather-head f to targets w h = mem-append_left (gather f targets) h

pub gather-tail :
    (f : ChainTarget → List Placed) (to : ChainTarget) (targets : List ChainTarget)
    → Within (gather f targets) (gather f (to ∷ targets))
unfolding gather
gather-tail f to targets w h = mem-append_right (f to) h
