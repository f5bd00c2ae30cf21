-- ===== src/Server/FileManager/Entries.antt =====
-- The map of FileManager: lookup after each change, and who holds a descriptor.
use fcopy.Base.{
  ℕ, ◌+◌, ◌≡◌, refl, sym, ap, ◌∙◌, Bytes, bytes_eq, bytes_eq→eq, bytes_eq_comm, List, [], ◌∷◌,
  false, Option, none, some, if◌then◌else◌, ◌==◌, Bool-cases, inl, inr, arith,
}
use fcopy.Wire.Messages.{ChainTarget}
use fcopy.Server.FileManager.{FileInfo, find, erase, set_targets}

-- At most one entry for a key.
abbrev pub IsMap : List (Bytes × FileInfo) → Type 0
IsMap [] = Unit {0}
IsMap ((k, info) ∷ m) = (find k m ≡ none) × IsMap m

-- How many entries hold a descriptor.
unfoldable pub holders : ℕ → List (Bytes × FileInfo) → ℕ
holders fd [] = 0
holders fd ((k, info) ∷ m) = (if fd == info.fd then 1 else 0) + holders fd m

pub find-erase :
    (token : Bytes) (m : List (Bytes × FileInfo)) → IsMap m → find token (erase token m) ≡ none
unfolding find erase
find-erase token [] u = refl
find-erase token ((k, info) ∷ m) (absent, u) = elim (Bool-cases (bytes_eq k token)) [
  | inl same ↦ rw same (ap (λ t. find t m) (sym (bytes_eq→eq k token same)) ∙ absent)
  | inr other ↦ rw (other, other) (find-erase token m u)
]

pub find-erase_other :
    (token other : Bytes) (m : List (Bytes × FileInfo))
    → bytes_eq token other ≡ false
    → find other (erase token m) ≡ find other m
unfolding find erase
find-erase_other token other [] h = refl
find-erase_other token other ((k, info) ∷ m) h = elim (Bool-cases (bytes_eq k token)) [
  | inl same ↦ rw same (rw (ap (λ t. bytes_eq t other) (bytes_eq→eq k token same) ∙ h))
  | inr differs ↦ rw differs (ground (arith, find-erase_other token other m h))
]

pub find-set_targets_self :
    (token : Bytes) (targets : List ChainTarget) (m : List (Bytes × FileInfo)) {info : FileInfo}
    → find token m ≡ some info
    → find token (set_targets token targets m) ≡ some (record info { targets = targets })
unfolding find set_targets
find-set_targets_self token targets [] h = cc
find-set_targets_self token targets ((k, i) ∷ m) {info} h = elim (Bool-cases (bytes_eq k token)) [
  | inl same ↦
      let here : ◌≡◌ {A = Option FileInfo} (some i) (some info) = rw same at h in
      let found : i ≡ info = cc in
      rw (same, same) (ap (λ (t : FileInfo). some (record t { targets = targets })) found)
  | inr other ↦ rw (other, other) (find-set_targets_self token targets m (rw other at h))
]

pub find-set_targets_other :
    (token other : Bytes) (targets : List ChainTarget) (m : List (Bytes × FileInfo))
    → bytes_eq token other ≡ false
    → find other (set_targets token targets m) ≡ find other m
unfolding find set_targets
find-set_targets_other token other targets [] h = refl
find-set_targets_other token other targets ((k, i) ∷ m) h = elim (Bool-cases (bytes_eq k token)) [
  | inl same ↦ rw same (rw (ap (λ t. bytes_eq t other) (bytes_eq→eq k token same) ∙ h))
  | inr differs ↦ rw differs (ground (arith, find-set_targets_other token other targets m h))
]

pub IsMap-set_targets :
    (token : Bytes) (targets : List ChainTarget) (m : List (Bytes × FileInfo))
    → IsMap m
    → IsMap (set_targets token targets m)
unfolding set_targets
IsMap-set_targets token targets [] u = tt
IsMap-set_targets token targets ((k, info) ∷ m) (absent, u) = elim (Bool-cases (bytes_eq k token)) [
  | inl same ↦ rw same (absent, u)
  | inr other ↦ rw other (
    find-set_targets_other token k targets m (bytes_eq_comm token k ∙ other) ∙ absent,
    IsMap-set_targets token targets m u,
  )
]

pub IsMap-erase : (token : Bytes) (m : List (Bytes × FileInfo)) → IsMap m → IsMap (erase token m)
unfolding erase
IsMap-erase token [] u = tt
IsMap-erase token ((k, info) ∷ m) (absent, u) = elim (Bool-cases (bytes_eq k token)) [
  | inl same ↦ rw same u
  | inr other ↦
      rw other
        (find-erase_other token k m (bytes_eq_comm token k ∙ other) ∙ absent, IsMap-erase token m u)
]

pub holders-erase :
    (token : Bytes) (m : List (Bytes × FileInfo)) (info : FileInfo) (fd : ℕ)
    → find token m ≡ some info
    → holders fd m ≡ (if fd == info.fd then 1 else 0) + holders fd (erase token m)
unfolding find erase holders
holders-erase token [] info fd h = cc
holders-erase token ((k, i) ∷ m) info fd h = ground (arith, holders-erase token m info fd)

pub holders-set_targets :
    (token : Bytes) (targets : List ChainTarget) (m : List (Bytes × FileInfo)) (fd : ℕ)
    → holders fd (set_targets token targets m) ≡ holders fd m
unfolding set_targets holders
holders-set_targets token targets [] fd = refl
holders-set_targets token targets ((k, i) ∷ m) fd =
    ground (arith, holders-set_targets token targets m fd)
