-- ===== src/Server/Overlap/Owners.antt =====
-- Who closes a descriptor when requests of src/server/service.cpp overlap.
use fcopy.Base.{
  ℕ, ◌+◌, ◌<◌, ◌≡◌, refl, sym, ap, ◌∙◌, Bytes, List, ◌∷◌, ◌++◌, true, false, All, arith, none, some,
  ◌==◌, Bool-cases, inl, inr, subst,
}
use fcopy.Server.FileManager.Entries.{holders, holders-erase}
use fcopy.Server.Overlap.{
  Shared, Job, creating, cutting, finding, sending, done, set_table, Move, fails, opens, opens_zero,
  cuts, cuts_not, enters, duplicates, refuses, finds, finds_not, closes, gets, gets_not, writes,
  Requests, Step, creates, ends, sends, works, Reach, start, later,
}
use fcopy.Server.Overlap.Held.{
  one, owned, all_owned, open_now, Holds, HoldsOwn, HoldsEntry, IsOwned, IsOwned-front,
  IsOwned-back, own_set, entries_set, own_clear, entries_clear, find-Holds, entries_erase,
}

-- A request that holds a descriptor closes it.
closed-IsOwned :
    (m : Shared) (t : Bytes) (fd : ℕ) (jobs : List Job)
    → Holds m.table t fd
    → ((g : ℕ)
        → 0 < g
        → holders g m.fmap + (one (g == fd) + all_owned g jobs) ≡ open_now (m.table g))
    → All (HoldsEntry m.table) m.fmap
    → All (HoldsOwn m.table) jobs
    → IsOwned (record m { table = set_table m.table fd none }) (done ∷ jobs)
closed-IsOwned m t fd jobs (h, e) balance entries own =
    let only : holders fd m.fmap + (one (fd == fd) + all_owned fd jobs) ≡ 1 =
      balance fd h ∙ ap open_now e in
    let alone : (holders fd m.fmap ≡ 0) × (all_owned fd jobs ≡ 0) = (ground arith, ground arith) in
    record {
      balance = λ g p. elim (Bool-cases (g == fd)) [
        | inl same ↦
            let eq : g ≡ fd = ground arith in
            rw same (
              subst (λ x. holders x m.fmap + (0 + all_owned x jobs) ≡ 0) (sym eq)
                (omega (arith, alone.0, alone.1)))
        | inr other ↦
            let before : holders g m.fmap + (0 + all_owned g jobs) ≡ open_now (m.table g) =
              rw other at (balance g p) in
            rw other before
      ];
      entries = entries_clear m.table fd m.fmap alone.0 entries;
      own = (tt, own_clear m.table fd jobs alone.1 own);
    }

-- A descriptor above 0 that is opened has no holder yet.
opened-IsOwned :
    (m : Shared) (t : Bytes) (fd : ℕ) (jobs : List Job)
    → 0 < fd
    → m.table fd ≡ none
    → IsOwned m (creating t ∷ jobs)
    → IsOwned (record m { table = set_table m.table fd (some t) }) (cutting t fd ∷ jobs)
opened-IsOwned m t fd jobs h free v =
    let unheld : holders fd m.fmap + (0 + all_owned fd jobs) ≡ 0 =
      v.balance fd h ∙ ap open_now free in
    let eq : (fd == fd) ≡ true = ground arith in
    record {
      balance = λ g p. elim (Bool-cases (g == fd)) [
        | inl same ↦
            let at : g ≡ fd = ground arith in
            rw same (
              subst (λ x. holders x m.fmap + (1 + all_owned x jobs) ≡ 1) (sym at)
                (omega (arith, unheld)))
        | inr other ↦ rw other (v.balance g p)
      ];
      entries = entries_set m.table t fd free m.fmap v.entries;
      own = ((h, rw eq refl), own_set m.table t fd free jobs v.own.1);
    }

-- The descriptor 0 is nobody's.
dropped-IsOwned :
    (m : Shared) (t : Bytes) (jobs : List Job)
    → m.table 0 ≡ none
    → IsOwned m (creating t ∷ jobs)
    → IsOwned (record m { table = set_table m.table 0 (some t) }) (done ∷ jobs)
dropped-IsOwned m t jobs free v = record {
  balance = λ g p. let other : (g == 0) ≡ false = ground arith in rw other (v.balance g p);
  entries = entries_set m.table t 0 free m.fmap v.entries;
  own = (tt, own_set m.table t 0 free jobs v.own.1);
}

move-IsOwned :
    {m m' : Shared} {job job' : Job} (jobs : List Job)
    → Move m job m' job'
    → IsOwned m (job ∷ jobs)
    → IsOwned m' (job' ∷ jobs)
unfolding holders
move-IsOwned jobs fails v = record { balance = v.balance; entries = v.entries; own = (tt, v.own.1) }
move-IsOwned {m} jobs (opens {t = t} fd h free) v = opened-IsOwned m t fd jobs h free v
move-IsOwned {m} jobs (opens_zero {t = t} free) v = dropped-IsOwned m t jobs free v
move-IsOwned {m} jobs (cuts {t = t} {fd = fd} info e) v = record {
  balance = λ g h.
      subst (λ x. holders g m.fmap + (one (g == x) + all_owned g jobs) ≡ open_now (m.table g))
        (sym e) (v.balance g h);
  entries = v.entries;
  own = (subst (λ x. Holds m.table t x) (sym e) v.own.0, v.own.1);
}
move-IsOwned jobs cuts_not v = record { balance = v.balance; entries = v.entries; own = v.own }
move-IsOwned {m} jobs (enters {t = t} {info = info} absent) v = record {
  balance = λ g h. omega (arith, v.balance g h);
  entries = (v.own.0, v.entries);
  own = (tt, v.own.1);
}
move-IsOwned jobs (duplicates there) v = record {
  balance = v.balance;
  entries = v.entries;
  own = v.own;
}
move-IsOwned {m} jobs (refuses {t = t} {fd = fd}) v =
    closed-IsOwned m t fd jobs v.own.0 v.balance v.entries v.own.1
move-IsOwned {m} jobs (finds {t = t} info found) v = record {
  balance = λ g h. omega (arith, v.balance g h, holders-erase t m.fmap info g found);
  entries = entries_erase m.table t m.fmap v.entries;
  own = (find-Holds m.table t m.fmap info found v.entries, v.own.1);
}
move-IsOwned jobs (finds_not absent) v = record {
  balance = v.balance;
  entries = v.entries;
  own = (tt, v.own.1);
}
move-IsOwned {m} jobs (closes {t = t} {info = info}) v =
    closed-IsOwned m t info.fd jobs v.own.0 v.balance v.entries v.own.1
move-IsOwned jobs (gets info found) v = record {
  balance = v.balance;
  entries = v.entries;
  own = (tt, v.own.1);
}
move-IsOwned jobs (gets_not absent) v = record {
  balance = v.balance;
  entries = v.entries;
  own = (tt, v.own.1);
}
move-IsOwned jobs writes v = record {
  balance = v.balance;
  entries = v.entries;
  own = (tt, v.own.1);
}

arrived-IsOwned :
    (m : Shared) (job : Job) (jobs : List Job)
    → ((g : ℕ) → owned g job ≡ 0)
    → HoldsOwn m.table job
    → IsOwned m jobs
    → IsOwned m (job ∷ jobs)
arrived-IsOwned m job jobs e h v = record {
  balance = λ g p. omega (arith, v.balance g p, e g);
  entries = v.entries;
  own = (h, v.own);
}

Step-IsOwned : {s t : Requests} → Step s t → IsOwned s.shared s.jobs → IsOwned t.shared t.jobs
Step-IsOwned {s} (creates token) v =
    arrived-IsOwned s.shared (creating token) s.jobs (λ g. refl) tt v
Step-IsOwned {s} (ends token) v = arrived-IsOwned s.shared (finding token) s.jobs (λ g. refl) tt v
Step-IsOwned {s} (sends token) v = arrived-IsOwned s.shared (sending token) s.jobs (λ g. refl) tt v
Step-IsOwned (works before after {m} {m'} {job} {job'} move) v =
    IsOwned-back m' before after job'
      (move-IsOwned (before ++ after) move (IsOwned-front m before after job v))

-- However requests to create, to close and to send overlap, every open descriptor above 0 is held
-- by exactly one entry of the map or request that has still to enter or to close it, and every
-- entry and every such request holds a descriptor above 0 that is open for the file of its token.
pub Reach-IsOwned : {s : Requests} → Reach s → IsOwned s.shared s.jobs
unfolding holders
Reach-IsOwned start = record { balance = λ g h. refl; entries = tt; own = tt }
Reach-IsOwned (later before step) = Step-IsOwned step (Reach-IsOwned before)
