-- ===== src/Cluster/Links.antt =====
-- set_send_chain and set_send_tree of src/client/file_sender.cpp over the servers.
use fcopy.Base.{
  ℕ, suc, ◌≤◌, ◌≡◌, refl, sym, ◌∙◌, List, [], ◌∷◌, true, false, Bool, All, arith, if◌then◌else◌,
  Bool-cases, List-cases, inl, inr, subst,
}
use fcopy.Base.Int.{ℤ, pos, is_zero, is_zero→ne}
use fcopy.Wire.Messages.{Command, ChainTarget, chain_req}
use fcopy.Wire.Stream.{Message, make}
use fcopy.Net.{RemoteTarget, reply_error, same_address, same_address_comm}
use fcopy.Cluster.{Nodes, ask}
use fcopy.Cluster.Setup.{Holds, ask-other, ask-link, ask-Holds}
use fcopy.Cluster.Session.{servers, address, Linked, Holds-at}
use fcopy.Client.Sender.{set_links}

-- No two peers have the same address.
abbrev pub PeersApart : List ChainTarget → Type 0
PeersApart [] = Unit {0}
PeersApart (p ∷ ps) = All (λ q. same_address (address p) (address q) ≡ false) ps × PeersApart ps

module _ (lost : ℤ) (hops : ℕ) (next : ℕ → List ChainTarget) where
  -- What the links change, they change at the peers that are still to come.
  set_links-other :
      (ps : List ChainTarget) (i : ℕ) (c : Nodes) (t : RemoteTarget)
      → All (λ p. same_address t (address p) ≡ false) ps
      → (set_links (servers lost hops) next ps i c).0 t.host t.port ≡ c t.host t.port
  unfolding set_links
  set_links-other [] i c t apart = refl
  set_links-other (p ∷ ps) i c t (apart, rest) = elim (List-cases (next i)) [
    | inl last ↦ rw (last, set_links) refl
    | inr (q, qs, more) ↦
        let m = make (chain_req (record { file_token = p.file_token; targets = q ∷ qs })) in
        let first =
          ask-other lost (suc hops) c p.host t.host p.port t.port m
            (same_address_comm (address p) t ∙ apart) in
        elim (Bool-cases (
          is_zero (reply_error Command.set_chain_resp (ask lost (suc hops) c p.host p.port m).1))) [
            | inl fine ↦ rw (more, set_links, fine) (set_links-other ps (suc i) _ t rest ∙ first)
            | inr failed ↦ rw (more, set_links, failed) first
          ]
  ]

  -- Peers without targets are linked as wanted where no peer is to get any.
  Linked-bare :
      (c : Nodes) (ps : List ChainTarget) (i : ℕ)
      → ((j : ℕ) → i ≤ j → next j ≡ [])
      → Linked c (λ j. []) i ps
      → Linked c next i ps
  Linked-bare c [] i bare v = tt
  Linked-bare c (p ∷ ps) i bare (v, vs) = (
    subst (Holds c p) (sym (bare i (omega arith))) v,
    Linked-bare c ps (suc i) (λ j h. bare j (omega arith)) vs,
  )

  Linked-ask :
      (c : Nodes) (t : RemoteTarget) (m : Message) (ps : List ChainTarget) (i : ℕ)
      → All (λ p. same_address t (address p) ≡ false) ps
      → Linked c (λ j. []) i ps
      → Linked (ask lost (suc hops) c t.host t.port m).0 (λ j. []) i ps
  Linked-ask c t m [] i apart v = tt
  Linked-ask c t m (p ∷ ps) i (apart, rest) (v, vs) = (
    ask-Holds lost (suc hops) c t.host t.port m p [] apart v,
    Linked-ask c t m ps (suc i) rest vs,
  )

  set_links-last :
      (p : ChainTarget) (ps : List ChainTarget) (i : ℕ) (c : Nodes)
      → next i ≡ []
      → set_links (servers lost hops) next (p ∷ ps) i c ≡ (c, pos 0)
  unfolding set_links
  set_links-last p ps i c last = rw (last, set_links) refl

  -- The request that sets the targets of a peer.
  abbrev link : ChainTarget → List ChainTarget → Message
  link p targets = make (chain_req (record { file_token = p.file_token; targets = targets }))

  set_links-more :
      (p q : ChainTarget) (ps qs : List ChainTarget) (i : ℕ) (c : Nodes)
      → next i ≡ q ∷ qs
      → let (c1, reply) = ask lost (suc hops) c p.host p.port (link p (q ∷ qs)) in
        let error = reply_error Command.set_chain_resp reply in
        set_links (servers lost hops) next (p ∷ ps) i c
        ≡ (if is_zero error then set_links (servers lost hops) next ps (suc i) c1 else (c1, error))
  unfolding set_links
  set_links-more p q ps qs i c more =
      let reply = (ask lost (suc hops) c p.host p.port (link p (q ∷ qs))).1 in
      elim (Bool-cases (is_zero (reply_error Command.set_chain_resp reply))) [
        | inl fine ↦ rw (more, set_links, fine) refl
        | inr failed ↦ rw (more, set_links, failed) refl
      ]

  abbrev AllLinked : List ChainTarget → ℕ → Nodes × ℤ → Type 0
  AllLinked ps i (c, error) = error ≡ pos 0 → Linked c next i ps

  either :
      (ps : List ChainTarget) (i : ℕ) (b : Bool) (x y : Nodes × ℤ)
      → (b ≡ true → AllLinked ps i x)
      → (b ≡ false → AllLinked ps i y)
      → AllLinked ps i (if b then x else y)
  either ps i true x y f g = f refl
  either ps i false x y f g = g refl

  -- If the links are set without an error, each file has the targets that it was to have.
  pub set_links-Linked :
      (ps : List ChainTarget) (i : ℕ) (c : Nodes)
      → ((j : ℕ) → next j ≡ [] → (k : ℕ) → j ≤ k → next k ≡ [])
      → PeersApart ps
      → Linked c (λ j. []) i ps
      → let (c', error) = set_links (servers lost hops) next ps i c in
        error ≡ pos 0 → Linked c' next i ps
  unfolding make
  set_links-Linked [] i c ends apart v = λ ok. tt
  set_links-Linked (p ∷ ps) i c ends (apart, rest) (v, vs) = elim (List-cases (next i)) [
    | inl last ↦
        subst (AllLinked (p ∷ ps) i) (sym (set_links-last p ps i c last))
          (λ ok. Linked-bare c (p ∷ ps) i (ends i last) (v, vs))
    | inr (q, qs, more) ↦
        let c1 = (ask lost (suc hops) c p.host p.port (link p (q ∷ qs))).0 in
        let made = ask-link lost hops c p [] (q ∷ qs) (link p (q ∷ qs)).base v in
        let later =
          set_links-Linked ps (suc i) c1 ends rest
            (Linked-ask c (address p) (link p (q ∷ qs)) ps (suc i) apart vs) in
        let kept =
          Holds-at lost hops c1 _ p (q ∷ qs) (set_links-other ps (suc i) c1 (address p) apart)
            made in
        subst (AllLinked (p ∷ ps) i) (sym (set_links-more p q ps qs i c more)) (
          either (p ∷ ps) i
            (is_zero (
              reply_error Command.set_chain_resp
                (ask lost (suc hops) c p.host p.port (link p (q ∷ qs))).1))
            _ _ (λ fine ok. (subst (Holds _ p) (sym more) kept, later ok))
            (λ failed ok. absurd (is_zero→ne _ failed ok)))
  ]
