-- ===== src/Server/Life/Stopping.antt =====
-- When the server of src/server/fcopy_server.cpp stops.
use fcopy.Base.{
  ℕ, zero, suc, ◌≡◌, ◌≤◌, ◌⊎◌, refl, sym, ap, ◌∙◌, List, [], ◌∷◌, true, false, inl, inr, arith,
  subst, ◌++◌,
}
use fcopy.Base.Int.{ℤ, pos}
use fcopy.Server.Main.{FcopyServiceParams}
use fcopy.Server.Life.{
  Phase, created, listening, connected, started, blocked, leaving, ended, Life, new_service, notify,
  advance_at, advance, Event, step, signal, run,
}
use fcopy.Server.Life.Running.{is_started, is_whole, whole_run}

-- The number of steps of main.
abbrev pub steps : List Event → ℕ
steps [] = 0
steps (step ∷ events) = suc (steps events)
steps (signal ∷ events) = steps events

-- The steps that main has before it at most, behind a signal.
abbrev left : Phase → ℕ
left created = 6
left listening = 5
left connected = 4
left started = 2
left blocked = 2
left leaving = 1
left (ended status) = 0

-- After start.
abbrev IsStopping : Phase → Type 0
IsStopping phase = (is_started phase ≡ true) ⊎ (phase ≡ ended (pos 0))

module _ (params : FcopyServiceParams) (server_start : ℤ) where
  advance_at-IsStopping :
      (phase : Phase) (s : Life) (n : ℕ)
      → s.phase ≡ phase
      → IsStopping phase
      → s.running ≡ false
      → left phase ≤ suc n
      → let t = advance_at params server_start phase s in
        IsStopping t.phase × (t.running ≡ false) × (left t.phase ≤ n)
  unfolding advance_at
  advance_at-IsStopping created s n e (inl h) r le = cc
  advance_at-IsStopping created s n e (inr h) r le = cc
  advance_at-IsStopping listening s n e (inl h) r le = cc
  advance_at-IsStopping listening s n e (inr h) r le = cc
  advance_at-IsStopping connected s n e (inl h) r le = cc
  advance_at-IsStopping connected s n e (inr h) r le = cc
  advance_at-IsStopping started s n e h r le = rw r (inl refl, refl, omega arith)
  advance_at-IsStopping blocked s n e h r le = rw r (inl refl, refl, omega arith)
  advance_at-IsStopping leaving s n e h r le = (inr refl, r, omega arith)
  advance_at-IsStopping (ended status) s n e (inl h) r le = cc
  advance_at-IsStopping (ended status) s n e (inr h) r le =
      (inr (e ∙ h), r, subst (λ p. left p ≤ n) (sym e) (omega arith))

  stopped : (phase : Phase) → IsStopping phase → left phase ≤ 0 → phase ≡ ended (pos 0)
  stopped phase (inr h) le = h
  stopped created (inl h) le = cc
  stopped listening (inl h) le = cc
  stopped connected (inl h) le = cc
  stopped started (inl h) le = absurd (omega arith)
  stopped blocked (inl h) le = absurd (omega arith)
  stopped leaving (inl h) le = absurd (omega arith)
  stopped (ended status) (inl h) le = cc

  stops :
      (n : ℕ) (events : List Event) (s : Life)
      → IsStopping s.phase
      → s.running ≡ false
      → left s.phase ≤ n
      → n ≤ steps events
      → (run params server_start events s).phase ≡ ended (pos 0)
  unfolding run advance
  stops n [] s h r le fuel = stopped s.phase h (omega arith)
  stops n (signal ∷ events) s h r le fuel = stops n events (notify s) h refl le fuel
  stops zero (step ∷ events) s h r le fuel =
      let (h', r', le') = advance_at-IsStopping s.phase s zero refl h r (omega arith) in
      stops zero events (advance params server_start s) h' r' le' (omega arith)
  stops (suc n) (step ∷ events) s h r le fuel =
      let (h', r', le') = advance_at-IsStopping s.phase s n refl h r le in
      stops n events (advance params server_start s) h' r' le' (omega arith)

  run-append :
      (before after : List Event) (s : Life)
      → run params server_start (before ++ after) s
        ≡ run params server_start after (run params server_start before s)
  unfolding run
  run-append [] after s = refl
  run-append (step ∷ before) after s = run-append before after (advance params server_start s)
  run-append (signal ∷ before) after s = run-append before after (notify s)

  left-started : (phase : Phase) → is_started phase ≡ true → left phase ≤ 2
  left-started created h = cc
  left-started listening h = cc
  left-started connected h = cc
  left-started started h = omega arith
  left-started blocked h = omega arith
  left-started leaving h = omega arith
  left-started (ended status) h = cc

-- When start has returned 0 and a signal comes, the server has stopped and main has ended with 0
-- after no more than two further steps of main, whatever else comes, further signals too.
pub run-signal :
    (params : FcopyServiceParams) (server_start : ℤ) (before after : List Event)
    → is_started (run params server_start before new_service).phase ≡ true
    → 2 ≤ steps after
    → let s = run params server_start (before ++ (signal ∷ after)) new_service in
      (s.phase ≡ ended (pos 0)) × (s.servers ≡ 0)
unfolding run
run-signal params server_start before after h fuel =
    let s = run params server_start before new_service in
    let ends =
      ap (λ t. t.phase) (run-append params server_start before (signal ∷ after) new_service)
      ∙ stops params server_start 2 after (notify s) (inl h) refl
          (left-started params server_start s.phase h) fuel in
    let whole = whole_run params server_start (before ++ (signal ∷ after)) new_service refl in
    (ends, none_left _ ends whole)
  where
    none_left :
        (s : Life)
        → s.phase ≡ ended (pos 0)
        → is_whole params server_start s.phase s ≡ true
        → s.servers ≡ 0
    none_left s e h =
        let closed = subst (λ p. is_whole params server_start p s ≡ true) e h in ground arith
