-- ===== src/Client/Sender/Transfer/Progress.antt =====
-- The tasks of send_file end: each step brings them nearer to it.
use fcopy.Base.{ℕ, zero, suc, ◌+◌, ◌-◌, ◌*◌, ◌≤◌, ◌<◌, ◌≡◌, List, [], ◌∷◌, ◌++◌, arith, replicate}
use fcopy.Client.Sender.Transfer.{
  Shared, Worker, starting, checking, claiming, reading, sending, leaving, done, Move, no_buffer,
  buffer, stop, go_on, claim, no_more, read, read_error, confirmed, refused, report, leave,
  Transfer, Step, pick, start_transfer,
}

-- Steps that a task has before it, up to its next claim.
abbrev pub rank : Worker → ℕ
rank starting = 4
rank checking = 3
rank claiming = 2
rank (reading o) = 5
rank (sending o n) = 4
rank (leaving e) = 1
rank done = 0

unfoldable pub ranks : List Worker → ℕ
ranks [] = 0
ranks (w ∷ ws) = rank w + ranks ws

ranks-append : (xs ys : List Worker) → ranks (xs ++ ys) ≡ ranks xs + ranks ys
unfolding ranks
ranks-append [] ys = omega arith
ranks-append (x ∷ xs) ys = omega (arith, ranks-append xs ys)

-- The steps that are left at most.
abbrev pub work_left : ℕ → Transfer → ℕ
work_left size s = ranks s.workers + (size - s.shared.cur_offset) * 4

Move-less :
    (size chunk : ℕ) {m m' : Shared} {w w' : Worker}
    → 0 < chunk
    → Move size chunk m w m' w'
    → rank w' + (size - m'.cur_offset) * 4 < rank w + (size - m.cur_offset) * 4
Move-less size chunk h (no_buffer e bad) = omega arith
Move-less size chunk h buffer = omega arith
Move-less size chunk h (stop failed) = omega arith
Move-less size chunk h (go_on fine) = omega arith
Move-less size chunk h (claim more) = omega arith
Move-less size chunk h (no_more all) = omega arith
Move-less size chunk h (read n fits) = omega arith
Move-less size chunk h (read_error e bad) = omega arith
Move-less size chunk h confirmed = omega arith
Move-less size chunk h (refused e bad) = omega arith
Move-less size chunk h (report bad) = omega arith
Move-less size chunk h (leave fine) = omega arith

Step-less :
    {size chunk : ℕ} {s t : Transfer}
    → 0 < chunk
    → Step size chunk s t
    → work_left size t < work_left size s
unfolding ranks
Step-less {size} {chunk} h (pick before after {m} {m'} {w} {w'} mv) = omega (
  arith,
  Move-less size chunk h mv,
  ranks-append before (w ∷ after),
  ranks-append before (w' ∷ after),
)

-- A number of steps in a row.
pub data Run (size chunk : ℕ) (s : Transfer) : ℕ → Transfer → Type 0 where
  here : Run size chunk s 0 s
  next :
      {n : ℕ} {t u : Transfer}
      → Run size chunk s n t
      → Step size chunk t u
      → Run size chunk s (suc n) u

Run-less :
    {size chunk : ℕ} {s : Transfer} {n : ℕ} {t : Transfer}
    → 0 < chunk
    → Run size chunk s n t
    → n + work_left size t ≤ work_left size s
Run-less h here = omega arith
Run-less h (next r st) = omega (arith, Run-less h r, Step-less h st)

ranks-starting : (n : ℕ) → ranks (replicate n starting) ≡ n * 4
unfolding ranks
ranks-starting zero = omega arith
ranks-starting (suc n) = omega (arith, ranks-starting n)

-- For a chunk size above 0, the tasks of send_file make no more steps, in any order, than four for
-- each task and four for each byte of the file.
pub send_file-ends :
    {size chunk n : ℕ} {s : Transfer} (parallel : ℕ)
    → 0 < chunk
    → Run size chunk (start_transfer parallel) n s
    → n ≤ parallel * 4 + size * 4
send_file-ends parallel h r = omega (arith, Run-less h r, ranks-starting parallel)
