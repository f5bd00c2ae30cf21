-- ===== src/Client/Sender/Transfer/Coverage.antt =====
-- Which chunks of the file the tasks of send_file have sent.
use fcopy.Base.{
  ℕ, zero, suc, ◌+◌, ◌-◌, ◌*◌, ◌≤◌, ◌<◌, ◌≡◌, ◌≢◌, refl, sym, ◌∙◌, List, [], ◌∷◌, ◌⊎◌, inl, inr,
  All, arith, length, subst, ltb, ltb→lt, ltb→le, Bool-cases,
}
use fcopy.Base.Int.{pos}
use fcopy.Client.Sender.Transfer.{Worker, done, Transfer, Reach}
use fcopy.Client.Sender.Transfer.Claims.{
  times_sent, holders, times_due, Inv, Calm, Settled, Reach-Inv, Reach-length, All-map,
}

times_due-past : (chunk r o : ℕ) → 0 < chunk → r * chunk ≤ o → times_due chunk r o ≡ 0
unfolding times_due
times_due-past chunk zero o pos_chunk h = refl
times_due-past chunk (suc r) o pos_chunk h =
    let below : r * chunk + chunk ≤ o = grind arith in
    ground (arith, times_due-past chunk r o pos_chunk)

times_due-le-one : (chunk r o : ℕ) → 0 < chunk → times_due chunk r o ≤ 1
unfolding times_due
times_due-le-one chunk zero o h = omega arith
times_due-le-one chunk (suc r) o h =
    ground (arith, times_due-le-one chunk r o h, times_due-past chunk r o h)

times_due-multiple : (chunk r k : ℕ) → 0 < chunk → k < r → times_due chunk r (k * chunk) ≡ 1
unfolding times_due
times_due-multiple chunk zero k h lt = absurd (omega arith)
times_due-multiple chunk (suc r) k h lt = elim (Bool-cases (ltb k r)) [
  | inl before ↦
      let less = ltb→lt k r before in
      let gap : k * chunk + chunk ≤ r * chunk = grind arith in
      ground (arith, times_due-multiple chunk r k h less)
  | inr last ↦
      let same : k ≡ r = omega (arith, ltb→le k r last) in
      rw same (ground (arith, times_due-past chunk r (r * chunk) h))
]

times_due-other : (chunk r o : ℕ) → ((k : ℕ) → o ≢ k * chunk) → times_due chunk r o ≡ 0
unfolding times_due
times_due-other chunk zero o h = refl
times_due-other chunk (suc r) o h = ground (arith, h r, times_due-other chunk r o h)

all_done : (o : ℕ) (ws : List Worker) → All (λ w. w ≡ done) ws → holders o ws ≡ 0
unfolding holders
all_done o [] h = refl
all_done o (w ∷ ws) (e, h) = rw e (omega (arith, all_done o ws h))

Calm-done : (w : Worker) → w ≡ done → Calm w
Calm-done w e = subst Calm (sym e) tt

-- The tasks of send_file never have a chunk confirmed twice, in whatever order they run.
pub send_file-once :
    {size chunk n : ℕ} {s : Transfer} (o : ℕ)
    → 0 < chunk
    → Reach size chunk n s
    → times_sent o s.shared.sent ≤ 1
send_file-once {chunk} o h r =
    let inv = Reach-Inv r in omega (arith, inv.at_most o, times_due-le-one chunk inv.rounds o h)

rounds_within :
    (r k chunk size : ℕ)
    → (r ≡ 0) ⊎ ((r - 1) * chunk < size)
    → size ≤ k * chunk
    → r * chunk ≤ k * chunk
rounds_within r k chunk size (inl empty) h = rw empty (grind arith)
rounds_within zero k chunk size (inr last) h = grind arith
rounds_within (suc r) k chunk size (inr last) h =
    let same : suc r - 1 ≡ r = omega arith in
    let last' : r * chunk < size = rw same at last in
    let short : r * chunk < k * chunk = omega arith in
    let below : r < k = grind arith in let step : (suc r) * chunk ≤ k * chunk = grind arith in step

-- When every task of send_file has ended, there was at least one, and the error is 0, then the chunk
-- at each multiple of the chunk size below the file size was confirmed exactly once, and nothing
-- else was.
pub send_file_complete :
    {size chunk n : ℕ} {s : Transfer}
    → 0 < chunk
    → 0 < n
    → Reach size chunk n s
    → All (λ w. w ≡ done) s.workers
    → s.shared.error ≡ pos 0
    → ((k : ℕ) → k * chunk < size → times_sent (k * chunk) s.shared.sent ≡ 1)
      × ((k : ℕ) → size ≤ k * chunk → times_sent (k * chunk) s.shared.sent ≡ 0)
      × ((o : ℕ) → ((k : ℕ) → o ≢ k * chunk) → times_sent o s.shared.sent ≡ 0)
send_file_complete {size} {chunk} {n} {s} pos_chunk some_task r ended fine = (
  λ k below. exact (k * chunk) ∙ times_due-multiple chunk inv.rounds k pos_chunk (early k below),
  λ k past. exact (k * chunk) ∙ times_due-past chunk inv.rounds (k * chunk) pos_chunk (late k past),
  λ o other. exact o ∙ times_due-other chunk inv.rounds o other,
)
  where
    inv : Inv size chunk s.shared s.workers
    inv = Reach-Inv r

    exact : (o : ℕ) → times_sent o s.shared.sent ≡ times_due chunk inv.rounds o
    exact o =
        let none_left = all_done o s.workers ended in
        let all_sent =
          inv.none_lost fine (All-map (λ w. w ≡ done) Calm s.workers Calm-done ended) o in
        omega arith

    covered_by :
        (ws : List Worker)
        → 0 < length ws
        → All (λ w. w ≡ done) ws
        → All (Settled size s.shared) ws
        → size ≤ s.shared.cur_offset
    covered_by [] h e v = absurd (omega arith)
    covered_by (w ∷ ws) h (e, es) (v, vs) = reason (subst (Settled size s.shared) e v)
      where
        reason : Settled size s.shared done → size ≤ s.shared.cur_offset
        reason (inl failed) = absurd (failed fine)
        reason (inr all) = all

    covered : size ≤ inv.rounds * chunk
    covered =
        omega (
          arith,
          inv.offset,
          covered_by s.workers (omega (arith, Reach-length r)) ended inv.settled,
        )

    early : (k : ℕ) → k * chunk < size → k < inv.rounds
    early k below = grind (arith, covered)

    late : (k : ℕ) → size ≤ k * chunk → inv.rounds * chunk ≤ k * chunk
    late k past = rounds_within inv.rounds k chunk size inv.needed past
