-- ===== src/Cluster/Sending.antt =====
-- FileSender against the servers, from create_file to the chunks that it sends.
use fcopy.Base.{
  ℕ, suc, ◌^◌, ◌≤◌, ◌<◌, ◌≡◌, refl, sym, ap, ◌∙◌, Bytes, List, [], ◌∷◌, some, false, All, arith,
  ◌==◌, Bool-cases, inl, inr, length, get_elem?, subst, fun_ext,
}
use fcopy.Base.Int.{ℤ, pos, is_zero, is_zero→eq, is_zero→ne, FitsInt16}
use fcopy.Base.Errno.{einval}
use fcopy.Wire.Messages.{Command, ChainTarget}
use fcopy.Wire.Head.{set_data_view}
use fcopy.Wire.Stream.{make}
use fcopy.Net.{RemoteTarget, reply_error, Apart}
use fcopy.Cluster.{Nodes, ask}
use fcopy.Cluster.Delivery.{ask-Delivered}
use fcopy.Cluster.Reaching.{ask-Ready}
use fcopy.Cluster.Session.{servers, Serves, Linked, open_all-Linked, peer_addresses}
use fcopy.Cluster.Links.{PeersApart, set_links-Linked}
use fcopy.Cluster.Spread.{children-last, held, Linked-Ready}
use fcopy.Cluster.Followers.{followers, children-followers}
use fcopy.Cluster.Writes.{Placed, message_writes}
use fcopy.Cluster.Once.{length-all_writes}
use fcopy.Cluster.Errors.{AllErrors, AllWorks, create_remote-AllErrors, create_remote-AllWorks}
use fcopy.Cluster.Everywhere.{Stored, Arrived, Arrived-Stored, peers-Arrived}
use fcopy.Client.Sender.{
  FileSender, peers, children, open_all, open_request, set_send, remote_open, create_remote,
  chunk_request,
}

peers-Apart :
    (targets : List RemoteTarget) (tokens : List Bytes)
    → Apart targets
    → PeersApart (peers targets tokens)
unfolding peers
peers-Apart [] tokens h = tt
peers-Apart (t ∷ targets) [] h = tt
peers-Apart (t ∷ targets) (k ∷ tokens) (h, hs) =
    (peer_addresses targets tokens t h, peers-Apart targets tokens hs)

-- The targets with the tokens that a sender has for them.
abbrev pub peers_of : FileSender → List ChainTarget
peers_of s = peers s.params.targets s.file_tokens

-- What create_file leaves when it reports no error: a token for each target, and for each a file
-- whose targets are the peers that are to get their chunks from it, in order.
abbrev pub Prepared : Nodes → FileSender → Type 0
Prepared c s =
    (length s.file_tokens ≡ length s.params.targets)
    × Linked c (λ j. followers s.params.send_method j 0 (peers_of s)) 0 (peers_of s)

module _ (lost : ℤ) (hops : ℕ) where
  opened-Prepared :
      (s : FileSender) (c : Nodes) (tokens : List Bytes)
      → Apart s.params.targets
      → length tokens ≡ length s.params.targets
      → Linked c (λ j. []) 0 (peers s.params.targets tokens)
      → let s' = record s { file_tokens = tokens } in
        let (c', error) = set_send (servers lost hops) s' c in
        error ≡ pos 0 → Prepared c' (record s' { error = error })
  unfolding set_send
  opened-Prepared s c tokens apart len bare ok = (
    len,
    subst
        (λ next.
          Linked (set_send (servers lost hops) (record s { file_tokens = tokens }) c).0 next 0
            (peers s.params.targets tokens))
        (fun_ext (children-followers s.params.send_method (peers s.params.targets tokens)))
        (set_links-Linked lost hops _ (peers s.params.targets tokens) 0 c
          (children-last s.params.send_method (peers s.params.targets tokens))
          (peers-Apart s.params.targets tokens apart) bare ok),
  )

  -- Let the targets have different addresses with a server each, where errno is from 1 to 32767 after
  -- a create_fd that fails and the errors of std::filesystem::absolute fit an int16_t. After a
  -- create_file without an error each target then has a file under its token, and the targets of the
  -- j-th file are, in order, those of index k > 0 for which j is k - 1 in a chain, or (k - 1) / 2 in
  -- a tree.
  pub create_remote-Prepared :
      (s : FileSender) (c : Nodes)
      → Apart s.params.targets
      → All (Serves c) s.params.targets
      → let (c', s') = create_remote (servers lost hops) s c in s'.error ≡ pos 0 → Prepared c' s'
  unfolding create_remote remote_open
  create_remote-Prepared s c apart serve = elim (Bool-cases (length s.params.targets == 0)) [
    | inl none_there ↦ rw none_there (λ bad. absurd (is_zero→ne (pos einval) refl bad))
    | inr there ↦
        let req = open_request s.params s.file_size in
        elim (Bool-cases (is_zero (open_all (servers lost hops) req s.params.targets c).1)) [
          | inl fine ↦
              rw (there, fine)
                (λ ok.
                  let (c1, error, tokens) = open_all (servers lost hops) req s.params.targets c in
                  let (len, bare) =
                    open_all-Linked lost hops req s.params.targets c 0 apart serve
                      (is_zero→eq _ fine) in
                  opened-Prepared s c1 tokens apart len bare ok)
          | inr failed ↦ rw (there, failed) (λ ok. absurd (is_zero→ne _ failed ok))
        ]
  ]

length-peers :
    (targets : List RemoteTarget) (tokens : List Bytes)
    → length tokens ≡ length targets
    → length (peers targets tokens) ≡ length targets
unfolding peers
length-peers [] tokens h = refl
length-peers (t ∷ targets) [] h = h
length-peers (t ∷ targets) (k ∷ tokens) h = ap suc (length-peers targets tokens (omega arith))

-- The first target with the first token.
abbrev first_peer : RemoteTarget → Bytes → ChainTarget
first_peer t token = record { host = t.host; port = t.port; file_token = token }

peers-first :
    (targets : List RemoteTarget) (tokens : List Bytes) (t : RemoteTarget) (token : Bytes)
    → get_elem? targets 0 ≡ some t
    → get_elem? tokens 0 ≡ some token
    → get_elem? (peers targets tokens) 0 ≡ some (first_peer t token)
unfolding peers
peers-first [] tokens t token there named = cc
peers-first (u ∷ targets) [] t token there named = cc
peers-first (u ∷ targets) (k ∷ tokens) t token there named = cc

All-get_elem? :
    (P : ChainTarget → Type 0) (ps : List ChainTarget)
    → ((j : ℕ) (p : ChainTarget) → j < length ps → get_elem? ps j ≡ some p → P p)
    → All P ps
All-get_elem? P [] h = tt
All-get_elem? P (p ∷ ps) h =
    (h 0 p (omega arith) refl, All-get_elem? P ps (λ j q lt there. h (suc j) q (omega arith) there))

module _ (lost : ℤ) (hops : ℕ) (s s' : FileSender) (c c' : Nodes) (apart : Apart s.params.targets)
    (serve : All (Serves c) s.params.targets)
    (created : create_remote (servers lost hops) s c ≡ (c', s')) (ok : s'.error ≡ pos 0)
    (t : RemoteTarget) (token content : Bytes) (offset : ℕ)
    (first : get_elem? s'.params.targets 0 ≡ some t)
    (named : get_elem? s'.file_tokens 0 ≡ some token) where
  abbrev ReadyAt : Nodes × FileSender → Type 0
  ReadyAt (d, r) = r.error ≡ pos 0 → Prepared d r

  prepared : Prepared c' s'
  prepared = subst ReadyAt created (create_remote-Prepared lost hops s c apart serve) ok

  linked : Linked c' (children s'.params.send_method (peers_of s')) 0 (peers_of s')
  linked =
      subst (λ next. Linked c' next 0 (peers_of s'))
        (sym (fun_ext (children-followers s'.params.send_method (peers_of s')))) prepared.1

  root : get_elem? (peers_of s') 0 ≡ some (first_peer t token)
  root = peers-first s'.params.targets s'.file_tokens t token first named

  -- What the first target answers to a chunk.
  abbrev answer : ℤ
  answer =
      reply_error Command.send_file_resp
        (ask lost (suc hops) c' t.host t.port (chunk_request s'.params token offset content)).1

  module _ (fits : FitsInt16 lost) (no_answer : is_zero lost ≡ false) (errors : AllErrors c) where
    later_errors : AllErrors c'
    later_errors =
        subst (λ (x : Nodes × FileSender). AllErrors x.0) created
          (create_remote-AllErrors lost hops s c errors)

    -- The writes that the client's request for the chunk leads to.
    abbrev pub writes_made : List Placed
    writes_made =
        message_writes lost (suc hops) c' t.host t.port
          (chunk_request s'.params token offset content)

    -- After a create_file without an error: if the first target answers a chunk without an error,
    -- the request has led every target to write it to the file of its token, at the chunk's offset,
    -- with success.
    pub sent-Stored : answer ≡ pos 0 → All (Stored c' writes_made content offset) (peers_of s')
    unfolding chunk_request set_data_view message_writes make
    sent-Stored sent =
        let delivered =
          ask-Delivered lost fits no_answer (suc hops) c' _ _ t.host t.port later_errors sent in
        All-get_elem? (Stored c' writes_made content offset) (peers_of s') (λ j p lt there.
          Arrived-Stored lost c' writes_made content offset p (
            peers-Arrived lost c' writes_made content offset s'.params.send_method (peers_of s')
              (held c' s'.params.send_method (peers_of s') linked) (suc j) j p (omega arith) there
              (λ q at.
                let first_is : some (first_peer t token) ≡ some q = sym root ∙ at in
                let same : first_peer t token ≡ q = cc in
                subst (Arrived lost c' writes_made content offset) same
                  (suc hops, _, refl, refl, delivered, λ w h. h))))

    -- If the first target answers a chunk without an error, the request has led to as many writes as
    -- there are targets.
    pub sent-once : answer ≡ pos 0 → length writes_made ≡ length s'.params.targets
    unfolding chunk_request set_data_view message_writes make
    sent-once sent =
        let delivered =
          ask-Delivered lost fits no_answer (suc hops) c' _ _ t.host t.port later_errors sent in
        length-all_writes lost c' content (peers_of s') s'.params.send_method
          (held c' s'.params.send_method (peers_of s') linked) (suc hops) (first_peer t token) _
          root refl delivered
        ∙ length-peers s'.params.targets s'.file_tokens prepared.0

  -- Let the targets have different addresses with a server each, where errno is from 1 to 32767 after
  -- a create_fd that fails and the errors of std::filesystem::absolute fit an int16_t, and let
  -- create_file end without an error. If no server's writes and allocations fail, there are fewer
  -- than 2^16 targets and no more than the hops that a request may take, the first target then
  -- answers every chunk without an error.
  pub sent-answered :
      AllWorks c
      → length s'.params.targets ≤ suc hops
      → length s'.params.targets < 2 ^ 16
      → answer ≡ pos 0
  unfolding chunk_request
  sent-answered works reach short =
      let later_works =
        subst (λ (x : Nodes × FileSender). AllWorks x.0) created
          (create_remote-AllWorks lost hops s c works) in
      let count = length-peers s'.params.targets s'.file_tokens prepared.0 in
      ask-Ready lost (length s'.params.targets) (suc hops) c' _ _ t.host t.port reach (omega arith)
        (omega arith)
        (Linked-Ready c' s'.params.send_method (peers_of s') linked later_works
          (length s'.params.targets) 0 (first_peer t token) root (omega (arith, count)))
