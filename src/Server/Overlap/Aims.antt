-- ===== src/Server/Overlap/Aims.antt =====
-- Writes of src/server/service.cpp on their way, when no file is closed under them.
use fcopy.Base.{
  ℕ, ◌+◌, ◌≤◌, ◌≡◌, refl, Bytes, List, [], ◌∷◌, ◌++◌, Bool, true, false, All, arith, Option, some,
  ◌==◌,
}
use fcopy.Server.Overlap.{
  Shared, Job, creating, cutting, entering, refusing, finding, closing, sending, writing, done,
  Move, Requests, no_requests, creates, ends, sends, works, Reach, start, later,
}
use fcopy.Server.Overlap.Held.{owned, all_owned, one, Holds}

abbrev writes_to : ℕ → Job → Bool
writes_to g (writing t fd) = g == fd
writes_to g _ = false

-- A file is closed only when no write for its descriptor is on its way.
abbrev pub Waits : Job → List Job → Type 0
Waits (closing t info) jobs = All (λ j. writes_to info.fd j ≡ false) jobs
Waits _ jobs = Unit {0}

-- The states that are reached when every close waits like this.
pub data Careful : Requests → Type 0 where
  begin : Careful no_requests
  asks_create :
      {s : Requests} (token : Bytes)
      → Careful s
      → Careful (record s { jobs = creating token ∷ s.jobs })
  asks_close :
      {s : Requests} (token : Bytes)
      → Careful s
      → Careful (record s { jobs = finding token ∷ s.jobs })
  asks_send :
      {s : Requests} (token : Bytes)
      → Careful s
      → Careful (record s { jobs = sending token ∷ s.jobs })
  moves :
      (before after : List Job) {m m' : Shared} {job job' : Job}
      → Careful (record { shared = m; jobs = before ++ (job ∷ after) })
      → Move m job m' job'
      → Waits job (before ++ after)
      → Careful (record { shared = m'; jobs = before ++ (job' ∷ after) })

pub Careful-Reach : {s : Requests} → Careful s → Reach s
Careful-Reach begin = start
Careful-Reach (asks_create token c) = later (Careful-Reach c) (creates token)
Careful-Reach (asks_close token c) = later (Careful-Reach c) (ends token)
Careful-Reach (asks_send token c) = later (Careful-Reach c) (sends token)
Careful-Reach (moves before after c move waits) = later (Careful-Reach c) (works before after move)

-- The descriptor that create_file has not entered yet.
abbrev pub pending : ℕ → Job → ℕ
pending g (cutting t fd) = one (g == fd)
pending g (entering t info) = one (g == info.fd)
pending g (refusing t fd) = one (g == fd)
pending g _ = 0

abbrev pub all_pending : ℕ → List Job → ℕ
all_pending g [] = 0
all_pending g (job ∷ jobs) = pending g job + all_pending g jobs

pub all_pending-middle :
    (g : ℕ) (before after : List Job) (job : Job)
    → all_pending g (before ++ (job ∷ after)) ≡ pending g job + all_pending g (before ++ after)
all_pending-middle g [] after job = refl
all_pending-middle g (b ∷ before) after job = omega (arith, all_pending-middle g before after job)

pending-owned : (g : ℕ) (job : Job) → pending g job ≤ owned g job
pending-owned g (creating u) = omega arith
pending-owned g (cutting u fd) = omega arith
pending-owned g (entering u info) = omega arith
pending-owned g (refusing u fd) = omega arith
pending-owned g (finding u) = omega arith
pending-owned g (closing u info) = omega arith
pending-owned g (sending u) = omega arith
pending-owned g (writing u fd) = omega arith
pending-owned g done = omega arith

pub all_pending-owned : (g : ℕ) (jobs : List Job) → all_pending g jobs ≤ all_owned g jobs
all_pending-owned g [] = omega arith
all_pending-owned g (job ∷ jobs) = omega (arith, pending-owned g job, all_pending-owned g jobs)

-- A write has a descriptor of its own file that was entered.
abbrev pub Aims : (ℕ → Option Bytes) → (ℕ → ℕ) → Job → Type 0
Aims table pre (writing t fd) = Holds table t fd × (pre fd ≡ 0)
Aims table pre _ = Unit {0}

abbrev pub Hits : Bytes × Option Bytes → Type 0
Hits (t, o) = o ≡ some t

pub record IsAimed (m : Shared) (jobs : List Job) : Type 0 where
  pub aims : All (Aims m.table (λ g. all_pending g jobs)) jobs
  pub hits : All Hits m.writes

-- What keeps a descriptor keeps the aim at it.
module _ (table table' : ℕ → Option Bytes) (pre pre' : ℕ → ℕ) where
  abbrev Keeps : (ℕ → Type 0) → Type 0
  Keeps P =
      (t : Bytes) (g : ℕ) → P g → Holds table t g → pre g ≡ 0 → Holds table' t g × (pre' g ≡ 0)

  aim_kept :
      (P : ℕ → Type 0) (job : Job)
      → Keeps P
      → ((g : ℕ) → writes_to g job ≡ true → P g)
      → Aims table pre job
      → Aims table' pre' job
  aim_kept P (creating u) keep p h = tt
  aim_kept P (cutting u fd) keep p h = tt
  aim_kept P (entering u info) keep p h = tt
  aim_kept P (refusing u fd) keep p h = tt
  aim_kept P (finding u) keep p h = tt
  aim_kept P (closing u info) keep p h = tt
  aim_kept P (sending u) keep p h = tt
  aim_kept P (writing u fd) keep p (h, e) = keep u fd (p fd (ground arith)) h e
  aim_kept P done keep p h = tt

  pub all_kept :
      (jobs : List Job)
      → Keeps (λ g. Unit {0})
      → All (Aims table pre) jobs
      → All (Aims table' pre') jobs
  all_kept [] keep h = tt
  all_kept (job ∷ jobs) keep (h, hs) = (aim_kept _ job keep (λ g e. tt) h, all_kept jobs keep hs)

  pub all_kept_but :
      (fd : ℕ) (jobs : List Job)
      → Keeps (λ g. (g == fd) ≡ false)
      → All (λ j. writes_to fd j ≡ false) jobs
      → All (Aims table pre) jobs
      → All (Aims table' pre') jobs
  all_kept_but fd [] keep w h = tt
  all_kept_but fd (job ∷ jobs) keep (w, ws) (h, hs) =
      (aim_kept _ job keep (λ g e. differs job g e w) h, all_kept_but fd jobs keep ws hs)
    where
      differs :
          (job : Job) (g : ℕ)
          → writes_to g job ≡ true
          → writes_to fd job ≡ false
          → (g == fd) ≡ false
      differs (writing u k) g e w = ground arith
      differs (creating u) g e w = cc
      differs (cutting u k) g e w = cc
      differs (entering u info) g e w = cc
      differs (refusing u k) g e w = cc
      differs (finding u) g e w = cc
      differs (closing u info) g e w = cc
      differs (sending u) g e w = cc
      differs done g e w = cc
