-- ===== src/Server/Life/Running.antt =====
-- What a service of src/server/service.cpp has, and what it does, until a signal comes.
use fcopy.Base.{
  ◌≡◌, ◌≢◌, refl, sym, ap, List, [], ◌∷◌, Bool, true, false, if◌then◌else◌, inl, inr, arith, subst,
  All, Bool-cases, not, ◌==◌, ◌&&◌,
}
use fcopy.Base.Int.{ℤ, pos, is_zero}
use fcopy.Server.Main.{FcopyServiceParams, is_empty}
use fcopy.Server.Life.{
  Phase, created, listening, connected, started, blocked, leaving, ended, Life, new_service, notify,
  start_server, advance_at, advance, Event, step, signal, run,
}

-- start has returned 0, and main has not ended.
abbrev pub is_started : Phase → Bool
is_started started = true
is_started blocked = true
is_started leaving = true
is_started _ = false

module _ (params : FcopyServiceParams) (server_start : ℤ) where
  -- What holds without a signal.
  abbrev is_calm : Phase → Bool → Bool
  is_calm leaving r = false
  is_calm (ended status) r = not (is_zero status)
  is_calm started r = r
  is_calm blocked r = r
  is_calm _ r = true

  abbrev IsCalm : Life → Type 0
  IsCalm s = is_calm s.phase s.running ≡ true

  start_server-IsCalm : (s : Life) → IsCalm (start_server params server_start s)
  unfolding start_server
  start_server-IsCalm s = elim (Bool-cases (is_empty params.default_partition)) [
    | inl e ↦ rw e refl
    | inr e ↦ elim (Bool-cases (is_zero server_start)) [
      | inl z ↦ rw (e, z) refl
      | inr z ↦ rw (e, z) (ap not z)
    ]
  ]

  advance_at-IsCalm :
      (phase : Phase) (s : Life)
      → s.phase ≡ phase
      → is_calm phase s.running ≡ true
      → IsCalm (advance_at params server_start phase s)
  unfolding advance_at
  advance_at-IsCalm created s e h = start_server-IsCalm s
  advance_at-IsCalm listening s e h = refl
  advance_at-IsCalm connected s e h = refl
  advance_at-IsCalm started s e h = rw h refl
  advance_at-IsCalm blocked s e h =
      subst (λ b. IsCalm (if b then s else record s { phase = leaving })) (sym h)
        (subst (λ p. is_calm p s.running ≡ true) (sym e) h)
  advance_at-IsCalm leaving s e h = cc
  advance_at-IsCalm (ended status) s e h = subst (λ p. is_calm p s.running ≡ true) (sym e) h

  run-IsCalm :
      (events : List Event) (s : Life)
      → All (λ e. e ≡ step) events
      → IsCalm s
      → IsCalm (run params server_start events s)
  unfolding run advance
  run-IsCalm [] s h calm = calm
  run-IsCalm (signal ∷ events) s (h, hs) calm = cc
  run-IsCalm (step ∷ events) s (h, hs) calm =
      run-IsCalm events (advance params server_start s) hs (advance_at-IsCalm s.phase s refl calm)

  -- What a started service has.
  abbrev pub is_whole : Phase → Life → Bool
  is_whole created s = s.servers == 0
  is_whole listening s = s.servers == 1
  is_whole (ended status) s = s.servers == 0
  is_whole _ s = s.servers == 1 && (s.cli && s.mng)

  whole_start :
      (s : Life)
      → s.phase ≡ created
      → (s.servers == 0) ≡ true
      → let t = start_server params server_start s in is_whole t.phase t ≡ true
  unfolding start_server
  whole_start s e h = elim (Bool-cases (is_empty params.default_partition)) [
    | inl e ↦ rw e h
    | inr e ↦ elim (Bool-cases (is_zero server_start)) [
      | inl z ↦ rw (e, z) (ground arith)
      | inr z ↦ rw (e, z) h
    ]
  ]

  whole_step :
      (phase : Phase) (s : Life)
      → s.phase ≡ phase
      → is_whole phase s ≡ true
      → let t = advance_at params server_start phase s in is_whole t.phase t ≡ true
  unfolding advance_at
  whole_step created s e h = whole_start s e h
  whole_step listening s e h = rw h refl
  whole_step connected s e h = h
  whole_step started s e h = elim (Bool-cases s.running) [ inl r ↦ rw r h | inr r ↦ rw r h ]
  whole_step blocked s e h = elim (Bool-cases s.running) [
    | inl r ↦
        subst
          (λ b.
            let t = (if b then s else record s { phase = leaving }) in is_whole t.phase t ≡ true)
          (sym r) (subst (λ p. is_whole p s ≡ true) (sym e) h)
    | inr r ↦ rw r h
  ]
  whole_step leaving s e h = refl
  whole_step (ended status) s e h = subst (λ p. is_whole p s ≡ true) (sym e) h

  pub whole_run :
      (events : List Event) (s : Life)
      → is_whole s.phase s ≡ true
      → let t = run params server_start events s in is_whole t.phase t ≡ true
  unfolding run advance
  whole_run [] s h = h
  whole_run (signal ∷ events) s h = whole_run events (notify s) (notify-whole s.phase s h)
    where
      notify-whole :
          (phase : Phase) (s : Life) → is_whole phase s ≡ true → is_whole phase (notify s) ≡ true
      notify-whole created s h = h
      notify-whole listening s h = h
      notify-whole connected s h = h
      notify-whole started s h = h
      notify-whole blocked s h = h
      notify-whole leaving s h = h
      notify-whole (ended status) s h = h
  whole_run (step ∷ events) s h =
      whole_run events (advance params server_start s) (whole_step s.phase s refl h)

  started-whole :
      (s : Life)
      → is_whole s.phase s ≡ true
      → is_started s.phase ≡ true
      → (s.servers ≡ 1) × (s.cli ≡ true) × (s.mng ≡ true)
  started-whole s h e = by_phase s.phase h e
    where
      by_phase :
          (phase : Phase)
          → is_whole phase s ≡ true
          → is_started phase ≡ true
          → (s.servers ≡ 1) × (s.cli ≡ true) × (s.mng ≡ true)
      by_phase created h e = cc
      by_phase listening h e = cc
      by_phase connected h e = cc
      by_phase started h e = (ground arith, ground arith, ground arith)
      by_phase blocked h e = (ground arith, ground arith, ground arith)
      by_phase leaving h e = (ground arith, ground arith, ground arith)
      by_phase (ended status) h e = cc

-- In every state in which start has returned 0 and main has not ended, one server listens, and the
-- client and the file manager that its handlers use are there. Without a signal, main does not stop
-- the server: it does not go on behind wait, and it has not ended with 0.
pub run-started :
    (params : FcopyServiceParams) (server_start : ℤ) (events : List Event)
    → let s = run params server_start events new_service in
      (is_started s.phase ≡ true → (s.servers ≡ 1) × (s.cli ≡ true) × (s.mng ≡ true))
      × (All (λ e. e ≡ step) events → (s.phase ≢ leaving) × (s.phase ≢ ended (pos 0)))
run-started params server_start events =
    let s = run params server_start events new_service in
    (
      λ h.
          started-whole params server_start s
            (whole_run params server_start events new_service refl) h,
      λ h.
          let calm = run-IsCalm params server_start events new_service h refl in
          (λ e. cannot_leave s e calm, λ e. cannot_end s e calm),
    )
  where
    cannot_leave :
        (s : Life) → s.phase ≡ leaving → is_calm params server_start s.phase s.running ≡ true → ⊥
    cannot_leave s e h =
        let wrong : false ≡ true =
          subst (λ p. is_calm params server_start p s.running ≡ true) e h in
        cc

    cannot_end :
        (s : Life)
        → s.phase ≡ ended (pos 0)
        → is_calm params server_start s.phase s.running ≡ true
        → ⊥
    cannot_end s e h =
        let wrong : false ≡ true =
          subst (λ p. is_calm params server_start p s.running ≡ true) e h in
        cc
