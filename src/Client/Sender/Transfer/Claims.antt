-- ===== src/Client/Sender/Transfer/Claims.antt =====
-- What the tasks of send_file have claimed and sent, in every state that they reach.
use fcopy.Base.{
  ℕ, zero, suc, ◌+◌, ◌-◌, ◌*◌, ◌≤◌, ◌<◌, ◌≡◌, ◌≢◌, refl, ap, ◌∙◌, List, [], ◌∷◌, ◌++◌, ◌⊎◌, inl,
  inr, All, All-append, if◌then◌else◌, ◌==◌, arith, length, length-replicate, replicate,
}
use fcopy.Base.Int.{pos}
use fcopy.Client.Sender.Transfer.{
  Shared, Worker, starting, checking, claiming, reading, sending, leaving, done, Move, no_buffer,
  buffer, stop, go_on, claim, no_more, read, read_error, confirmed, refused, report, leave,
  Transfer, start_transfer, Step, pick, Reach, start, later,
}

-- How often an offset was answered, how many tasks hold it, and how often it was given out.
unfoldable pub times_sent : ℕ → List (ℕ × ℕ) → ℕ
times_sent o [] = 0
times_sent o ((p, n) ∷ sent) = (if o == p then 1 else 0) + times_sent o sent

abbrev pub holds : ℕ → Worker → ℕ
holds o (reading p) = if o == p then 1 else 0
holds o (sending p n) = if o == p then 1 else 0
holds o _ = 0

unfoldable pub holders : ℕ → List Worker → ℕ
holders o [] = 0
holders o (w ∷ ws) = holds o w + holders o ws

-- How often an offset is among 0, chunk, 2 * chunk, ... of `rounds` chunks.
unfoldable pub times_due : ℕ → ℕ → ℕ → ℕ
times_due chunk zero o = 0
times_due chunk (suc r) o = (if o == r * chunk then 1 else 0) + times_due chunk r o

-- A task that carries no error with it.
abbrev pub Calm : Worker → Type 0
Calm (leaving e) = e ≡ pos 0
Calm w = Unit {0}

-- A task that has left the loop without an error of its own has a reason.
abbrev pub Settled : ℕ → Shared → Worker → Type 0
Settled size m (leaving e) = (e ≢ pos 0) ⊎ ((m.error ≢ pos 0) ⊎ (size ≤ m.cur_offset))
Settled size m done = (m.error ≢ pos 0) ⊎ (size ≤ m.cur_offset)
Settled size m w = Unit {0}

pub record Inv (size chunk : ℕ) (m : Shared) (ws : List Worker) : Type 0 where
  pub rounds : ℕ
  pub offset : m.cur_offset ≡ rounds * chunk
  pub needed : (rounds ≡ 0) ⊎ ((rounds - 1) * chunk < size)
  pub at_most : (o : ℕ) → holders o ws + times_sent o m.sent ≤ times_due chunk rounds o
  pub none_lost :
      m.error ≡ pos 0
      → All Calm ws
      → (o : ℕ) → holders o ws + times_sent o m.sent ≡ times_due chunk rounds o
  pub settled : All (Settled size m) ws

holders-append : (o : ℕ) (xs ys : List Worker) → holders o (xs ++ ys) ≡ holders o xs + holders o ys
unfolding holders
holders-append o [] ys = omega arith
holders-append o (x ∷ xs) ys = omega (arith, holders-append o xs ys)

holders-starting : (o n : ℕ) → holders o (replicate n starting) ≡ 0
unfolding holders
holders-starting o zero = refl
holders-starting o (suc n) = omega (arith, holders-starting o n)

Inv-start : (size chunk n : ℕ) → Inv size chunk (start_transfer n).shared (start_transfer n).workers
unfolding times_sent times_due
Inv-start size chunk n = record {
  rounds = 0;
  offset = omega arith;
  needed = inl refl;
  at_most = λ o. omega (arith, holders-starting o n);
  none_lost = λ e c o. omega (arith, holders-starting o n);
  settled = all_starting n;
}
  where
    all_starting : (k : ℕ) → All (Settled size (start_transfer n).shared) (replicate k starting)
    all_starting zero = tt
    all_starting (suc k) = (tt, all_starting k)

module _ {A : Type 0} (P : A → Type 0) where
  All-left : (xs ys : List A) → All P (xs ++ ys) → All P xs
  All-left [] ys h = tt
  All-left (x ∷ xs) ys h = (h.0, All-left xs ys h.1)

  All-right : (xs ys : List A) → All P (xs ++ ys) → All P ys
  All-right [] ys h = h
  All-right (x ∷ xs) ys h = All-right xs ys h.1

  pub All-map : (Q : A → Type 0) (xs : List A) → ((x : A) → P x → Q x) → All P xs → All Q xs
  All-map Q [] f h = tt
  All-map Q (x ∷ xs) f h = (f x h.0, All-map Q xs f h.1)

-- One worker in the place of another.
module _ {A : Type 0} (P Q : A → Type 0) where
  All-replace :
      (before after : List A) (w w' : A)
      → ((x : A) → P x → Q x)
      → Q w'
      → All P (before ++ (w ∷ after))
      → All Q (before ++ (w' ∷ after))
  All-replace before after w w' f q h =
      let rest = All-right P before (w ∷ after) h in
      All-append Q before (w' ∷ after) (All-map P Q before f (All-left P before (w ∷ after) h))
        (q, All-map P Q after f rest.1)

Settled-later :
    (size : ℕ) (m m' : Shared)
    → (m.error ≢ pos 0 → m'.error ≢ pos 0)
    → m.cur_offset ≤ m'.cur_offset
    → (w : Worker) → Settled size m w
    → Settled size m' w
Settled-later size m m' f le (leaving e) (inl own) = inl own
Settled-later size m m' f le (leaving e) (inr (inl other)) = inr (inl (f other))
Settled-later size m m' f le (leaving e) (inr (inr all)) = inr (inr (omega arith))
Settled-later size m m' f le done (inl other) = inl (f other)
Settled-later size m m' f le done (inr all) = inr (omega arith)
Settled-later size m m' f le starting h = tt
Settled-later size m m' f le checking h = tt
Settled-later size m m' f le claiming h = tt
Settled-later size m m' f le (reading o) h = tt
Settled-later size m m' f le (sending o n) h = tt

module _ (size chunk : ℕ) (before after : List Worker) (m m' : Shared) (w w' : Worker) where
  holders-replaced :
      (o : ℕ)
      → holders o (before ++ (w' ∷ after)) + holds o w
        ≡ holders o (before ++ (w ∷ after)) + holds o w'
  unfolding holders
  holders-replaced o =
      omega (arith, holders-append o before (w ∷ after), holders-append o before (w' ∷ after))

  -- A move that gives out no chunk.
  Inv-move :
      m'.cur_offset ≡ m.cur_offset
      → ((o : ℕ) → holds o w' + times_sent o m'.sent ≤ holds o w + times_sent o m.sent)
      → (m'.error ≡ pos 0
          → Calm w'
          → (m.error ≡ pos 0)
            × Calm w
            × ((o : ℕ) → holds o w' + times_sent o m'.sent ≡ holds o w + times_sent o m.sent))
      → (m.error ≢ pos 0 → m'.error ≢ pos 0)
      → Settled size m' w'
      → Inv size chunk m (before ++ (w ∷ after))
      → Inv size chunk m' (before ++ (w' ∷ after))
  Inv-move cur less back worse settled inv = record {
    rounds = inv.rounds;
    offset = cur ∙ inv.offset;
    needed = inv.needed;
    at_most = λ o. omega (arith, less o, inv.at_most o, holders-replaced o);
    none_lost = λ e calm o.
        let (e', calm_w, same) = back e (All-right Calm before (w' ∷ after) calm).0 in
        let was =
          inv.none_lost e' (All-replace Calm Calm before after w' w (λ x c. c) calm_w calm) o in
        omega (arith, same o, was, holders-replaced o);
    settled =
        All-replace (Settled size m) (Settled size m') before after w w'
          (Settled-later size m m' worse (omega (arith, cur))) settled inv.settled;
  }

module _ (size chunk : ℕ) (before after : List Worker) where
  claim-Inv :
      (m : Shared)
      → m.cur_offset < size
      → Inv size chunk m (before ++ (claiming ∷ after))
      → Inv size chunk
          (record m { cur_offset = m.cur_offset + chunk })
          (before ++ (reading m.cur_offset ∷ after))
  unfolding times_due
  claim-Inv m more inv = record {
    rounds = suc inv.rounds;
    offset = grind (arith, inv.offset);
    needed = inr (rw (pred inv.rounds) (omega (arith, inv.offset)));
    at_most = λ o. ground (arith, inv.offset, inv.at_most o, replaced o);
    none_lost = λ e calm o.
        let before_calm =
          All-replace Calm Calm before after (reading m.cur_offset) claiming (λ x c. c) tt calm in
        ground (arith, inv.offset, inv.none_lost e before_calm o, replaced o);
    settled =
        All-replace (Settled size m) (Settled size (record m { cur_offset = m.cur_offset + chunk }))
          before after claiming (reading m.cur_offset)
          (Settled-later size m (record m { cur_offset = m.cur_offset + chunk }) (λ bad. bad)
            (omega arith))
          tt inv.settled;
  }
    where
      pred : (n : ℕ) → suc n - 1 ≡ n
      pred n = omega arith

      replaced :
          (o : ℕ)
          → holders o (before ++ (reading m.cur_offset ∷ after))
            ≡ holders o (before ++ (claiming ∷ after)) + (if o == m.cur_offset then 1 else 0)
      replaced o =
          omega
            (arith, holders-replaced size chunk before after m m claiming (reading m.cur_offset) o)

  Move-Inv :
      {m m' : Shared} {w w' : Worker}
      → Move size chunk m w m' w'
      → Inv size chunk m (before ++ (w ∷ after))
      → Inv size chunk m' (before ++ (w' ∷ after))
  unfolding times_sent
  Move-Inv {m} (no_buffer e bad) =
      Inv-move size chunk before after m (record m { error = e }) starting done refl
        (λ o. omega arith) (λ fine c. absurd (bad fine)) (λ h. bad) (inl bad)
  Move-Inv {m} buffer =
      Inv-move size chunk before after m m starting checking refl (λ o. omega arith)
        (λ fine c. (fine, tt, λ o. refl)) (λ h. h) tt
  Move-Inv {m} (stop failed) =
      Inv-move size chunk before after m m checking (leaving (pos 0)) refl (λ o. omega arith)
        (λ fine c. (fine, tt, λ o. refl)) (λ h. h) (inr (inl failed))
  Move-Inv {m} (go_on fine) =
      Inv-move size chunk before after m m checking claiming refl (λ o. omega arith)
        (λ fine c. (fine, tt, λ o. refl)) (λ h. h) tt
  Move-Inv {m} (claim more) = claim-Inv m more
  Move-Inv {m} (no_more all) =
      Inv-move size chunk before after m m claiming (leaving (pos 0)) refl (λ o. omega arith)
        (λ fine c. (fine, tt, λ o. refl)) (λ h. h) (inr (inr all))
  Move-Inv {m} (read {o} n fits) =
      Inv-move size chunk before after m m (reading o) (sending o n) refl (λ p. omega arith)
        (λ fine c. (fine, tt, λ p. refl)) (λ h. h) tt
  Move-Inv {m} (read_error {o} e bad) =
      Inv-move size chunk before after m m (reading o) (leaving e) refl (λ p. omega arith)
        (λ fine c. absurd (bad c)) (λ h. h) (inl bad)
  Move-Inv {m} (confirmed {o} {n}) =
      Inv-move size chunk before after m (record m { sent = (o, n) ∷ m.sent }) (sending o n)
        checking refl (λ p. omega arith) (λ fine c. (fine, tt, λ p. omega arith)) (λ h. h) tt
  Move-Inv {m} (refused {o} {n} e bad) =
      Inv-move size chunk before after m m (sending o n) (leaving e) refl (λ p. omega arith)
        (λ fine c. absurd (bad c)) (λ h. h) (inl bad)
  Move-Inv {m} (report {e} bad) =
      Inv-move size chunk before after m (record m { error = e }) (leaving e) done refl
        (λ o. omega arith) (λ fine c. absurd (bad fine)) (λ h. bad) (inl bad)
  Move-Inv {m} (leave {e} none_own) = λ inv.
      Inv-move size chunk before after m m (leaving e) done refl (λ o. omega arith)
        (λ fine c. (fine, none_own, λ o. refl)) (λ h. h)
        (reason (All-right (Settled size m) before (leaving e ∷ after) inv.settled).0) inv
    where
      reason : Settled size m (leaving e) → Settled size m done
      reason (inl own) = absurd (own none_own)
      reason (inr other) = other

Step-Inv :
    {size chunk : ℕ} {s t : Transfer}
    → Step size chunk s t
    → Inv size chunk s.shared s.workers
    → Inv size chunk t.shared t.workers
Step-Inv {size} {chunk} (pick before after mv) inv = Move-Inv size chunk before after mv inv

pub Reach-Inv :
    {size chunk n : ℕ} {s : Transfer} → Reach size chunk n s → Inv size chunk s.shared s.workers
Reach-Inv {size} {chunk} {n} start = Inv-start size chunk n
Reach-Inv (later r st) = Step-Inv st (Reach-Inv r)

length-replaced :
    (before after : List Worker) (w w' : Worker)
    → length (before ++ (w' ∷ after)) ≡ length (before ++ (w ∷ after))
length-replaced [] after w w' = refl
length-replaced (x ∷ before) after w w' = ap suc (length-replaced before after w w')

pub Reach-length : {size chunk n : ℕ} {s : Transfer} → Reach size chunk n s → length s.workers ≡ n
Reach-length {n} start = length-replicate n starting
Reach-length (later r (pick before after {w} {w'} mv)) =
    length-replaced before after w w' ∙ Reach-length r
