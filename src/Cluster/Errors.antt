-- ===== src/Cluster/Errors.antt =====
-- Requests change the files of a server, and not what it calls.
use fcopy.Base.{
  ℕ, zero, suc, ◌≡◌, Bytes, bytes_eq, List, [], ◌∷◌, some, Bool-cases, Option-cases, List-cases,
  inl, inr, ◌==◌, ◌&&◌, length, subst,
}
use fcopy.Base.Int.{ℤ, is_zero}
use fcopy.Wire.Messages.{Command, ChainTarget, CreateFileReq, create_req, chain_req}
use fcopy.Wire.Stream.{Message, make}
use fcopy.Net.{RemoteTarget, reply_error}
use fcopy.Server.FileManager.{FileManager}
use fcopy.Cluster.{Node, Nodes, put, ask}
use fcopy.Cluster.Delivery.{NodeErrors}
use fcopy.Cluster.Reaching.{Works}
use fcopy.Cluster.Session.{servers}
use fcopy.Client.Sender.{
  FileSender, peers, children, open_all, open_request, set_links, set_send, remote_open,
  create_remote,
}

-- What holds of the server at every address.
abbrev pub AllNodes : (Node → Type 0) → Nodes → Type 0
AllNodes P c = (h : Bytes) (p : ℕ) (node : Node) → c h p ≡ some node → P node

-- The calls of every server report proper errors.
abbrev pub AllErrors : Nodes → Type 0
AllErrors = AllNodes NodeErrors

-- No server's writes and allocations fail.
abbrev pub AllWorks : Nodes → Type 0
AllWorks = AllNodes Works

-- What hangs on a server's calls alone.
module _ (P : Node → Type 0)
    (keeps : (node : Node) (m : FileManager) → P node → P (record node { manager = m })) where
  put-AllNodes :
      (c : Nodes) (host : Bytes) (port : ℕ) (node : Node) (m : FileManager)
      → AllNodes P c
      → P node
      → AllNodes P (put host port (record node { manager = m }) c)
  unfolding put
  put-AllNodes c host port node m all errors h p other there =
      elim (Bool-cases (bytes_eq host h && port == p)) [
        | inl here ↦
            let same : some (record node { manager = m }) ≡ some other = rw here at there in
            let is_same : record node { manager = m } ≡ other = cc in
            subst P is_same (keeps node m errors)
        | inr elsewhere ↦ all h p other (rw elsewhere at there)
      ]

  module _ (lost : ℤ) where
    ask-AllNodes :
        (hops : ℕ) (c : Nodes) (h : Bytes) (p : ℕ) (m : Message)
        → AllNodes P c
        → AllNodes P (ask lost hops c h p m).0
    unfolding ask
    ask-AllNodes zero c h p m all = all
    ask-AllNodes (suc hops) c h p m all = elim (Option-cases (c h p)) [
      | inl absent ↦ rw (absent, ask) all
      | inr (node, there) ↦ rw (there, ask) (put-AllNodes c h p node _ all (all h p node there))
    ]

    module _ (hops : ℕ) where
      open_all-AllNodes :
          (req : CreateFileReq) (targets : List RemoteTarget) (c : Nodes)
          → AllNodes P c
          → AllNodes P (open_all (servers lost hops) req targets c).0
      unfolding open_all
      open_all-AllNodes req [] c all = all
      open_all-AllNodes req (t ∷ targets) c all =
          let m = make (create_req req) in
          let first = ask-AllNodes (suc hops) c t.host t.port m all in
          elim (Bool-cases (
            is_zero
              (reply_error Command.create_file_resp (ask lost (suc hops) c t.host t.port m).1))) [
                | inl fine ↦ rw fine (open_all-AllNodes req targets _ first)
                | inr failed ↦ rw failed first
              ]

      set_links-AllNodes :
          (next : ℕ → List ChainTarget) (ps : List ChainTarget) (i : ℕ) (c : Nodes)
          → AllNodes P c
          → AllNodes P (set_links (servers lost hops) next ps i c).0
      unfolding set_links
      set_links-AllNodes next [] i c all = all
      set_links-AllNodes next (p ∷ ps) i c all = elim (List-cases (next i)) [
        | inl last ↦ rw (last, set_links) all
        | inr (q, qs, more) ↦
            let m = make (chain_req (record { file_token = p.file_token; targets = q ∷ qs })) in
            let first = ask-AllNodes (suc hops) c p.host p.port m all in
            elim (Bool-cases (
              is_zero
                (reply_error Command.set_chain_resp (ask lost (suc hops) c p.host p.port m).1))) [
                  | inl fine ↦
                      rw (more, set_links, fine) (set_links-AllNodes next ps (suc i) _ first)
                  | inr failed ↦ rw (more, set_links, failed) first
                ]
      ]

      set_send-AllNodes :
          (s : FileSender) (c : Nodes)
          → AllNodes P c
          → AllNodes P (set_send (servers lost hops) s c).0
      unfolding set_send
      set_send-AllNodes s c all =
          let ps = peers s.params.targets s.file_tokens in
          set_links-AllNodes (children s.params.send_method ps) ps 0 c all

      create_remote-AllNodes :
          (s : FileSender) (c : Nodes)
          → AllNodes P c
          → AllNodes P (create_remote (servers lost hops) s c).0
      unfolding create_remote remote_open
      create_remote-AllNodes s c all = elim (Bool-cases (length s.params.targets == 0)) [
        | inl none_there ↦ rw none_there all
        | inr there ↦
            let req = open_request s.params s.file_size in
            let opened = open_all-AllNodes req s.params.targets c all in
            elim (Bool-cases (is_zero (open_all (servers lost hops) req s.params.targets c).1)) [
              | inl fine ↦
                  rw (there, fine)
                    (set_send-AllNodes
                      (record s {
                        file_tokens = (open_all (servers lost hops) req s.params.targets c).2;
                      })
                      _ opened)
              | inr failed ↦ rw (there, failed) opened
            ]
      ]

module _ (lost : ℤ) (hops : ℕ) (s : FileSender) (c : Nodes) where
  pub create_remote-AllErrors : AllErrors c → AllErrors (create_remote (servers lost hops) s c).0
  create_remote-AllErrors =
      create_remote-AllNodes NodeErrors
        (λ node m v. record { allocations = v.allocations; writes = v.writes }) lost hops s c

  pub create_remote-AllWorks : AllWorks c → AllWorks (create_remote (servers lost hops) s c).0
  create_remote-AllWorks =
      create_remote-AllNodes Works
        (λ node m v. record { allocates = v.allocates; writes = v.writes }) lost hops s c
