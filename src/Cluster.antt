-- ===== src/Cluster.antt =====
-- Servers that pass chunks on to one another: FcopyService of src/server/service.cpp at several
-- addresses, where the requests of one are answered by the others.
pub mod Delivery
pub mod Reaching
pub mod Setup
pub mod Session
pub mod Links
pub mod Spread
pub mod Followers
pub mod Writes
pub mod Heap
pub mod Once
pub mod Errors
pub mod Everywhere
pub mod Sending
pub mod WholeFile
use fcopy.Base.{
  ℕ, zero, suc, Bytes, bytes_eq, List, Bool, ◌&&◌, Option, none, some, if◌then◌else◌, ◌==◌,
}
use fcopy.Base.Int.{ℤ}
use fcopy.Wire.Stream.{Message}
use fcopy.Net.{Reply, broken, answered}
use fcopy.Server.FileManager.{FileManager, System, Log}
use fcopy.Server.Service.{Environment, Params, Write, process}

-- A server: its state, and what it calls besides the other servers.
pub record Node : Type 0 where
  pub manager : FileManager
  pub params : Params
  pub sys : System
  pub absolute : Log → Bytes → ℤ × Bytes
  pub allocates : ℕ → Option ℤ
  pub pwrite : Write → Option ℤ

-- The servers by host and port.
abbrev pub Nodes : Type 0
Nodes = Bytes → ℕ → Option Node

unfoldable pub put : Bytes → ℕ → Node → Nodes → Nodes
put host port node c h p = if bytes_eq host h && port == p then some node else c h p

abbrev pub environment : (Bytes → ℕ → Message → Reply) → Node → Environment
environment ask node = record {
  sys = node.sys;
  absolute = node.absolute;
  request = λ i host port m. ask host port m;
  allocates = node.allocates;
  pwrite = node.pwrite;
}

-- `lost` is the error of a task that reaches no server.
module _ (lost : ℤ) where
  -- A request to an address, and the servers after it. The servers that it is passed on to only
  -- write, so that they stay as they are. A request is passed on `hops` times at most.
  unfoldable pub ask : ℕ → Nodes → Bytes → ℕ → Message → Nodes × Reply
  unfolding put
  ask zero c host port m = (c, broken lost)
  ask (suc hops) c host port m = elim (c host port) [
    | none ↦ (c, broken lost)
    | some node ↦
        let env = environment (λ h p q. (ask hops c h p q).1) node in
        let (m', resp, writes) = process env node.params node.manager m in
        (put host port (record node { manager = m' }) c, answered resp)
  ]
