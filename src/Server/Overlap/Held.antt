-- ===== src/Server/Overlap/Held.antt =====
-- The descriptors that requests and entries of src/server/file_manager.cpp hold.
use fcopy.Base.{
  ℕ, ◌+◌, ◌<◌, ◌≡◌, refl, sym, ap, ◌∙◌, Bytes, bytes_eq, List, [], ◌∷◌, ◌++◌, Bool, false, All,
  arith, Option, none, some, if◌then◌else◌, ◌==◌, Bool-cases, inl, inr, subst, bytes_eq→eq,
}
use fcopy.Server.FileManager.{FileInfo, find, erase}
use fcopy.Server.FileManager.Entries.{holders}
use fcopy.Server.Overlap.{
  Shared, Job, creating, cutting, entering, refusing, finding, closing, sending, writing, done,
  set_table,
}

abbrev pub one : Bool → ℕ
one b = if b then 1 else 0

-- The descriptor that a request has to enter or to close.
abbrev pub owned : ℕ → Job → ℕ
owned g (cutting t fd) = one (g == fd)
owned g (entering t info) = one (g == info.fd)
owned g (refusing t fd) = one (g == fd)
owned g (closing t info) = one (g == info.fd)
owned g _ = 0

abbrev pub all_owned : ℕ → List Job → ℕ
all_owned g [] = 0
all_owned g (job ∷ jobs) = owned g job + all_owned g jobs

abbrev pub open_now : Option Bytes → ℕ
open_now none = 0
open_now (some t) = 1

-- The descriptor is open for the file of the token.
abbrev pub Holds : (ℕ → Option Bytes) → Bytes → ℕ → Type 0
Holds table t fd = (0 < fd) × (table fd ≡ some t)

abbrev pub HoldsOwn : (ℕ → Option Bytes) → Job → Type 0
HoldsOwn table (cutting t fd) = Holds table t fd
HoldsOwn table (entering t info) = Holds table t info.fd
HoldsOwn table (refusing t fd) = Holds table t fd
HoldsOwn table (closing t info) = Holds table t info.fd
HoldsOwn table _ = Unit {0}

abbrev pub HoldsEntry : (ℕ → Option Bytes) → Bytes × FileInfo → Type 0
HoldsEntry table (t, info) = Holds table t info.fd

-- Every open descriptor above 0 is held by exactly one entry or request, and all of them hold
-- descriptors of their own files.
pub record IsOwned (m : Shared) (jobs : List Job) : Type 0 where
  pub balance : (g : ℕ) → 0 < g → holders g m.fmap + all_owned g jobs ≡ open_now (m.table g)
  pub entries : All (HoldsEntry m.table) m.fmap
  pub own : All (HoldsOwn m.table) jobs

all_owned-middle :
    (g : ℕ) (before after : List Job) (job : Job)
    → all_owned g (before ++ (job ∷ after)) ≡ owned g job + all_owned g (before ++ after)
all_owned-middle g [] after job = refl
all_owned-middle g (b ∷ before) after job = omega (arith, all_owned-middle g before after job)

pub All-middle :
    (P : Job → Type 0) (before after : List Job) (job : Job)
    → All P (before ++ (job ∷ after))
    → P job × All P (before ++ after)
All-middle P [] after job h = h
All-middle P (b ∷ before) after job (h, hs) =
    let (here, rest) = All-middle P before after job hs in (here, (h, rest))

pub All-put :
    (P : Job → Type 0) (before after : List Job) (job : Job)
    → P job
    → All P (before ++ after)
    → All P (before ++ (job ∷ after))
All-put P [] after job here h = (here, h)
All-put P (b ∷ before) after job here (h, hs) = (h, All-put P before after job here hs)

-- A request at any place is looked at first.
pub IsOwned-front :
    (m : Shared) (before after : List Job) (job : Job)
    → IsOwned m (before ++ (job ∷ after))
    → IsOwned m (job ∷ (before ++ after))
IsOwned-front m before after job v = record {
  balance = λ g h. omega (arith, v.balance g h, all_owned-middle g before after job);
  entries = v.entries;
  own = All-middle _ before after job v.own;
}

pub IsOwned-back :
    (m : Shared) (before after : List Job) (job : Job)
    → IsOwned m (job ∷ (before ++ after))
    → IsOwned m (before ++ (job ∷ after))
IsOwned-back m before after job v = record {
  balance = λ g h. omega (arith, v.balance g h, all_owned-middle g before after job);
  entries = v.entries;
  own = All-put _ before after job v.own.0 v.own.1;
}

-- A descriptor that is opened does not touch those that are open.
pub Holds-set :
    (table : ℕ → Option Bytes) (t u : Bytes) (fd g : ℕ)
    → table fd ≡ none
    → Holds table u g
    → Holds (set_table table fd (some t)) u g
Holds-set table t u fd g free (h, e) = elim (Bool-cases (g == fd)) [
  | inl same ↦
      let eq : g ≡ fd = ground arith in
      let wrong : ◌≡◌ {A = Option Bytes} (some u) none = sym e ∙ ap table eq ∙ free in cc
  | inr other ↦ (h, rw other e)
]

-- A descriptor that is closed does not touch the others.
pub Holds-clear :
    (table : ℕ → Option Bytes) (u : Bytes) (fd g : ℕ)
    → (g == fd) ≡ false
    → Holds table u g
    → Holds (set_table table fd none) u g
Holds-clear table u fd g other (h, e) = (h, rw other e)

module _ (table : ℕ → Option Bytes) (t : Bytes) (fd : ℕ) (free : table fd ≡ none) where
  HoldsOwn-set : (job : Job) → HoldsOwn table job → HoldsOwn (set_table table fd (some t)) job
  HoldsOwn-set (creating u) h = tt
  HoldsOwn-set (cutting u g) h = Holds-set table t u fd g free h
  HoldsOwn-set (entering u info) h = Holds-set table t u fd info.fd free h
  HoldsOwn-set (refusing u g) h = Holds-set table t u fd g free h
  HoldsOwn-set (finding u) h = tt
  HoldsOwn-set (closing u info) h = Holds-set table t u fd info.fd free h
  HoldsOwn-set (sending u) h = tt
  HoldsOwn-set (writing u g) h = tt
  HoldsOwn-set done h = tt

  pub own_set :
      (jobs : List Job)
      → All (HoldsOwn table) jobs
      → All (HoldsOwn (set_table table fd (some t))) jobs
  own_set [] h = tt
  own_set (job ∷ jobs) (h, hs) = (HoldsOwn-set job h, own_set jobs hs)

  pub entries_set :
      (m : List (Bytes × FileInfo))
      → All (HoldsEntry table) m
      → All (HoldsEntry (set_table table fd (some t))) m
  entries_set [] h = tt
  entries_set ((u, info) ∷ m) (h, hs) = (Holds-set table t u fd info.fd free h, entries_set m hs)

module _ (table : ℕ → Option Bytes) (fd : ℕ) where
  other_fd : (g : ℕ) → one (fd == g) ≡ 0 → (g == fd) ≡ false
  other_fd g h = ground arith

  HoldsOwn-clear :
      (job : Job) → owned fd job ≡ 0 → HoldsOwn table job → HoldsOwn (set_table table fd none) job
  HoldsOwn-clear (creating u) e h = tt
  HoldsOwn-clear (cutting u g) e h = Holds-clear table u fd g (other_fd g e) h
  HoldsOwn-clear (entering u info) e h = Holds-clear table u fd info.fd (other_fd info.fd e) h
  HoldsOwn-clear (refusing u g) e h = Holds-clear table u fd g (other_fd g e) h
  HoldsOwn-clear (finding u) e h = tt
  HoldsOwn-clear (closing u info) e h = Holds-clear table u fd info.fd (other_fd info.fd e) h
  HoldsOwn-clear (sending u) e h = tt
  HoldsOwn-clear (writing u g) e h = tt
  HoldsOwn-clear done e h = tt

  pub own_clear :
      (jobs : List Job)
      → all_owned fd jobs ≡ 0
      → All (HoldsOwn table) jobs
      → All (HoldsOwn (set_table table fd none)) jobs
  own_clear [] e h = tt
  own_clear (job ∷ jobs) e (h, hs) =
      (HoldsOwn-clear job (omega arith) h, own_clear jobs (omega arith) hs)

  pub entries_clear :
      (m : List (Bytes × FileInfo))
      → holders fd m ≡ 0
      → All (HoldsEntry table) m
      → All (HoldsEntry (set_table table fd none)) m
  unfolding holders
  entries_clear [] e h = tt
  entries_clear ((u, info) ∷ m) e (h, hs) = (
    Holds-clear table u fd info.fd (other_fd info.fd (omega arith)) h,
    entries_clear m (omega arith) hs,
  )

pub find-Holds :
    (table : ℕ → Option Bytes) (t : Bytes) (m : List (Bytes × FileInfo)) (info : FileInfo)
    → find t m ≡ some info
    → All (HoldsEntry table) m
    → Holds table t info.fd
unfolding find
find-Holds table t [] info e h = cc
find-Holds table t ((k, i) ∷ m) info e (h, hs) = elim (Bool-cases (bytes_eq k t)) [
  | inl same ↦
      let here : ◌≡◌ {A = Option FileInfo} (some i) (some info) = rw same at e in
      let eq : i ≡ info = cc in
      subst (λ x. Holds table x info.fd) (bytes_eq→eq k t same)
        (subst (λ x. Holds table k x.fd) eq h)
  | inr other ↦ find-Holds table t m info (rw other at e) hs
]

pub entries_erase :
    (table : ℕ → Option Bytes) (t : Bytes) (m : List (Bytes × FileInfo))
    → All (HoldsEntry table) m
    → All (HoldsEntry table) (erase t m)
unfolding erase
entries_erase table t [] h = tt
entries_erase table t ((k, i) ∷ m) (h, hs) = elim (Bool-cases (bytes_eq k t)) [
  | inl same ↦ rw same hs
  | inr other ↦ rw other (h, entries_erase table t m hs)
]
