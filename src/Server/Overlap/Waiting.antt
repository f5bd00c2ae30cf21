-- ===== src/Server/Overlap/Waiting.antt =====
-- Overlapping requests of src/server/service.cpp when no file is closed under a write.
use fcopy.Base.{
  ℕ, ◌+◌, ◌≤◌, ◌≡◌, refl, sym, ap, ◌∙◌, Bytes, List, [], ◌∷◌, ◌++◌, true, false, All, arith, Option,
  none, some, ◌==◌, Bool-cases, inl, inr, subst,
}
use fcopy.Server.FileManager.{FileInfo, find, erase}
use fcopy.Server.FileManager.Entries.{holders, holders-erase}
use fcopy.Server.Overlap.{
  Shared, Job, creating, cutting, refusing, finding, closing, sending, done, set_table, Move, fails,
  opens, opens_zero, cuts, cuts_not, enters, duplicates, refuses, finds, finds_not, closes, gets,
  gets_not, writes, Requests,
}
use fcopy.Server.Overlap.Held.{
  one, open_now, Holds, IsOwned, IsOwned-front, All-middle, All-put, find-Holds, Holds-set,
  Holds-clear,
}
use fcopy.Server.Overlap.Owners.{Reach-IsOwned}
use fcopy.Server.Overlap.Aims.{
  Waits, Careful, begin, asks_create, asks_close, asks_send, moves, Careful-Reach, pending,
  all_pending, all_pending-middle, all_pending-owned, Aims, Hits, IsAimed, all_kept, all_kept_but,
}

-- A step that opens and closes nothing, and starts no write.
stays-IsAimed :
    (m : Shared) (fmap : List (Bytes × FileInfo)) (job job' : Job) (jobs : List Job)
    → ((g : ℕ) → pending g job' ≤ pending g job)
    → Aims m.table (λ g. all_pending g (job' ∷ jobs)) job'
    → IsAimed m (job ∷ jobs)
    → IsAimed (record m { fmap = fmap }) (job' ∷ jobs)
stays-IsAimed m fmap job job' jobs less aim v = record {
  aims = (
    aim,
    all_kept m.table m.table (λ g. all_pending g (job ∷ jobs)) (λ g. all_pending g (job' ∷ jobs))
        jobs (λ t g p h e. (h, omega (arith, less g, e))) v.aims.1,
  );
  hits = v.hits;
}

opened-IsAimed :
    (m : Shared) (t : Bytes) (fd : ℕ) (job' : Job) (jobs : List Job)
    → m.table fd ≡ none
    → ((g : ℕ) → (g == fd) ≡ false → pending g job' ≡ 0)
    → Aims (set_table m.table fd (some t)) (λ g. all_pending g (job' ∷ jobs)) job'
    → IsAimed m (creating t ∷ jobs)
    → IsAimed (record m { table = set_table m.table fd (some t) }) (job' ∷ jobs)
opened-IsAimed m t fd job' jobs free small aim v = record {
  aims = (
    aim,
    all_kept m.table (set_table m.table fd (some t)) (λ g. all_pending g (creating t ∷ jobs))
        (λ g. all_pending g (job' ∷ jobs)) jobs
        (λ u g p h e.
          (Holds-set m.table t u fd g free h, omega (arith, small g (differs u g h), e)))
        v.aims.1,
  );
  hits = v.hits;
}
  where
    differs : (u : Bytes) (g : ℕ) → Holds m.table u g → (g == fd) ≡ false
    differs u g (h, e) = elim (Bool-cases (g == fd)) [
      | inl same ↦
          let eq : g ≡ fd = ground arith in
          let wrong : ◌≡◌ {A = Option Bytes} (some u) none = sym e ∙ ap m.table eq ∙ free in cc
      | inr other ↦ other
    ]

refused-IsAimed :
    (m : Shared) (t : Bytes) (fd : ℕ) (jobs : List Job)
    → IsAimed m (refusing t fd ∷ jobs)
    → IsAimed (record m { table = set_table m.table fd none }) (done ∷ jobs)
refused-IsAimed m t fd jobs v = record {
  aims = (
    tt,
    all_kept m.table (set_table m.table fd none) (λ g. all_pending g (refusing t fd ∷ jobs))
        (λ g. all_pending g (done ∷ jobs)) jobs
        (λ u g p h e. (Holds-clear m.table u fd g (ground arith) h, omega (arith, e))) v.aims.1,
  );
  hits = v.hits;
}

closed-IsAimed :
    (m : Shared) (t : Bytes) (info : FileInfo) (jobs : List Job)
    → Waits (closing t info) jobs
    → IsAimed m (closing t info ∷ jobs)
    → IsAimed (record m { table = set_table m.table info.fd none }) (done ∷ jobs)
closed-IsAimed m t info jobs waits v = record {
  aims = (
    tt,
    all_kept_but m.table (set_table m.table info.fd none)
        (λ g. all_pending g (closing t info ∷ jobs)) (λ g. all_pending g (done ∷ jobs)) info.fd jobs
        (λ u g other h e. (Holds-clear m.table u info.fd g other h, e)) waits v.aims.1,
  );
  hits = v.hits;
}

-- A descriptor of an entry is not pending.
entered-pending :
    (m : Shared) (t : Bytes) (info : FileInfo) (jobs : List Job)
    → find t m.fmap ≡ some info
    → IsOwned m jobs
    → all_pending info.fd jobs ≡ 0
entered-pending m t info jobs found owner =
    let (h, e) = find-Holds m.table t m.fmap info found owner.entries in
    let one_holder = owner.balance info.fd h ∙ ap open_now e in
    let refl_fd : (info.fd == info.fd) ≡ true = ground arith in
    let held : holders info.fd m.fmap ≡ 1 + holders info.fd (erase t m.fmap) =
      rw refl_fd at (holders-erase t m.fmap info info.fd found) in
    omega (arith, one_holder, held, all_pending-owned info.fd jobs)

move-IsAimed :
    {m m' : Shared} {job job' : Job} (jobs : List Job)
    → Move m job m' job'
    → Waits job jobs
    → IsOwned m (job ∷ jobs)
    → IsAimed m (job ∷ jobs)
    → IsAimed m' (job' ∷ jobs)
move-IsAimed {m} {m'} {job} {job'} jobs fails w o v =
    stays-IsAimed m m.fmap job job' jobs (λ g. omega arith) tt v
move-IsAimed {m} jobs (opens {t = t} fd h free) w o v =
    opened-IsAimed m t fd (cutting t fd) jobs free (λ g e. ground arith) tt v
move-IsAimed {m} jobs (opens_zero {t = t} free) w o v =
    opened-IsAimed m t 0 done jobs free (λ g e. refl) tt v
move-IsAimed {m} {m'} {job} {job'} jobs (cuts {t = t} {fd = fd} info e) w o v =
    stays-IsAimed m m.fmap job job' jobs
      (λ g. subst (λ x. one (g == info.fd) ≤ one (g == x)) e (omega arith)) tt v
move-IsAimed {m} {m'} {job} {job'} jobs cuts_not w o v =
    stays-IsAimed m m.fmap job job' jobs (λ g. omega arith) tt v
move-IsAimed {m} {m'} {job} {job'} jobs (enters absent) w o v =
    stays-IsAimed m m'.fmap job job' jobs (λ g. omega arith) tt v
move-IsAimed {m} {m'} {job} {job'} jobs (duplicates there) w o v =
    stays-IsAimed m m.fmap job job' jobs (λ g. omega arith) tt v
move-IsAimed {m} jobs (refuses {t = t} {fd = fd}) w o v = refused-IsAimed m t fd jobs v
move-IsAimed {m} {m'} {job} {job'} jobs (finds info found) w o v =
    stays-IsAimed m m'.fmap job job' jobs (λ g. omega arith) tt v
move-IsAimed {m} {m'} {job} {job'} jobs (finds_not absent) w o v =
    stays-IsAimed m m.fmap job job' jobs (λ g. omega arith) tt v
move-IsAimed {m} jobs (closes {t = t} {info = info}) w o v = closed-IsAimed m t info jobs w v
move-IsAimed {m} {m'} {job} {job'} jobs (gets {t = t} info found) w o v =
    stays-IsAimed m m.fmap job job' jobs (λ g. omega arith)
      (
        find-Holds m.table t m.fmap info found o.entries,
        entered-pending m t info (job ∷ jobs) found o,
      )
      v
move-IsAimed {m} {m'} {job} {job'} jobs (gets_not absent) w o v =
    stays-IsAimed m m.fmap job job' jobs (λ g. omega arith) tt v
move-IsAimed {m} jobs (writes {t = t} {fd = fd}) w o v = record {
  aims = (tt, v.aims.1);
  hits = (v.aims.0.0.1, v.hits);
}

-- The order of the requests does not matter.
IsAimed-front :
    (m : Shared) (before after : List Job) (job : Job)
    → IsAimed m (before ++ (job ∷ after))
    → IsAimed m (job ∷ (before ++ after))
IsAimed-front m before after job v = record {
  aims = All-middle _ before after job (
      all_kept m.table m.table (λ g. all_pending g (before ++ (job ∷ after)))
        (λ g. all_pending g (job ∷ (before ++ after))) (before ++ (job ∷ after))
        (λ t g p h e. (h, omega (arith, e, all_pending-middle g before after job))) v.aims);
  hits = v.hits;
}

IsAimed-back :
    (m : Shared) (before after : List Job) (job : Job)
    → IsAimed m (job ∷ (before ++ after))
    → IsAimed m (before ++ (job ∷ after))
IsAimed-back m before after job v =
    let put =
      all_kept m.table m.table (λ g. all_pending g (job ∷ (before ++ after)))
        (λ g. all_pending g (before ++ (job ∷ after))) (job ∷ (before ++ after))
        (λ t g p h e. (h, omega (arith, e, all_pending-middle g before after job))) v.aims in
    record { aims = All-put _ before after job put.0 put.1; hits = v.hits }

arrived-IsAimed :
    (m : Shared) (job : Job) (jobs : List Job)
    → ((g : ℕ) → pending g job ≡ 0)
    → Aims m.table (λ g. all_pending g (job ∷ jobs)) job
    → IsAimed m jobs
    → IsAimed m (job ∷ jobs)
arrived-IsAimed m job jobs none_pending aim v = record {
  aims = (
    aim,
    all_kept m.table m.table (λ g. all_pending g jobs) (λ g. all_pending g (job ∷ jobs)) jobs
        (λ t g p h e. (h, omega (arith, e, none_pending g))) v.aims,
  );
  hits = v.hits;
}

Careful-IsAimed : {s : Requests} → Careful s → IsAimed s.shared s.jobs
Careful-IsAimed begin = record { aims = tt; hits = tt }
Careful-IsAimed (asks_create {s} token c) =
    arrived-IsAimed s.shared (creating token) s.jobs (λ g. refl) tt (Careful-IsAimed c)
Careful-IsAimed (asks_close {s} token c) =
    arrived-IsAimed s.shared (finding token) s.jobs (λ g. refl) tt (Careful-IsAimed c)
Careful-IsAimed (asks_send {s} token c) =
    arrived-IsAimed s.shared (sending token) s.jobs (λ g. refl) tt (Careful-IsAimed c)
Careful-IsAimed (moves before after {m} {m'} {job} {job'} c move waits) =
    IsAimed-back m' before after job' (
      move-IsAimed (before ++ after) move waits
        (IsOwned-front m before after job (Reach-IsOwned (Careful-Reach c)))
        (IsAimed-front m before after job (Careful-IsAimed c)))

-- If every close waits until no write for its descriptor is on its way, every write reaches the file
-- of its token, however the requests overlap otherwise.
pub Careful-writes : {s : Requests} → Careful s → All (λ w. w.1 ≡ some w.0) s.shared.writes
Careful-writes c = hit _ (Careful-IsAimed c).hits
  where
    hit : (ws : List (Bytes × Option Bytes)) → All Hits ws → All (λ w. w.1 ≡ some w.0) ws
    hit [] h = tt
    hit ((t, o) ∷ ws) (h, hs) = (h, hit ws hs)
