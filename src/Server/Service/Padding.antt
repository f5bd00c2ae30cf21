-- ===== src/Server/Service/Padding.antt =====
-- The size and the contents of the writes of write_file in src/server/service.cpp, which O_DIRECT
-- wants in whole blocks.
use fcopy.Base.{
  ℕ, ◌+◌, ◌-◌, ◌%◌, ◌^◌, ◌<◌, ◌≤◌, ◌≡◌, ◌≢◌, ◌⊎◌, inl, inr, refl, sym, ap, Bytes, List, ◌++◌,
  length, take, drop, replicate, length-append, length-replicate, [], ◌∷◌, Option, none, some, ◌==◌,
  Bool-cases, Option-cases, arith,
}
use fcopy.Base.Int.{ℤ, pos}
use fcopy.Server.Service.{
  Environment, Write, chunk_base, padded, padded_size, make_write, write_file,
}

padded_size-bounds :
    (n : ℕ)
    → n + chunk_base < 2 ^ 64
    → (padded_size n % chunk_base ≡ 0) × (n ≤ padded_size n) × (padded_size n < n + chunk_base)
unfolding padded_size
padded_size-bounds n h = (ground arith, ground arith, ground arith)

length-padded :
    (content : Bytes)
    → length content + chunk_base < 2 ^ 64
    → length (padded content) ≡ padded_size (length content)
unfolding padded
length-padded content h =
    let (blocks, enough, near) = padded_size-bounds (length content) h in
    let split =
      length-append content (replicate (padded_size (length content) - length content) 0) in
    let zeros = length-replicate {A = ℕ} (padded_size (length content) - length content) 0 in
    omega arith

take-length : (xs ys : Bytes) → take (length xs) (xs ++ ys) ≡ xs
take-length [] ys = refl
take-length (x ∷ xs) ys = ap (◌∷◌ x) (take-length xs ys)

drop-length : (xs ys : Bytes) → drop (length xs) (xs ++ ys) ≡ ys
drop-length [] ys = refl
drop-length (x ∷ xs) ys = drop-length xs ys

-- A write to a file at an offset: the shortest one of whole blocks that holds the data. The data
-- stands first, and zeros follow it.
pub record Blocks (fd : ℕ) (content : Bytes) (offset : ℕ) (w : Write) : Type 0 where
  pub place : (w.fd ≡ fd) × (w.offset ≡ offset)
  pub whole : length w.content % chunk_base ≡ 0
  pub short : length w.content < length content + chunk_base
  pub first : take (length content) w.content ≡ content
  pub zeros : drop (length content) w.content ≡ replicate (length w.content - length content) 0

padded-Blocks :
    (fd : ℕ) (content : Bytes) (offset : ℕ)
    → length content + chunk_base < 2 ^ 64
    → Blocks fd content offset (record { fd = fd; content = padded content; offset = offset })
unfolding padded
padded-Blocks fd content offset h =
    let size = length-padded content h in
    let (blocks, enough, near) = padded_size-bounds (length content) h in
    record {
      place = (refl, refl);
      whole = rw size blocks;
      short = rw size near;
      first = take-length content _;
      zeros = rw size (drop-length content _);
    }

-- The error that a call reports, and 0 for none.
abbrev pub error_of : Option ℤ → ℤ
error_of none = pos 0
error_of (some e) = e

-- One write of whole blocks was made, and its error is the result.
abbrev pub WritesBlocks : Environment → ℕ → Bytes → ℕ → ℤ × List Write → Type 0
WritesBlocks env fd content offset (error, writes) =
    (w : Write) × Blocks fd content offset w × (writes ≡ w ∷ []) × (error ≡ error_of (env.pwrite w))

make_write-WritesBlocks :
    (env : Environment) (fd : ℕ) (content : Bytes) (offset : ℕ) (w : Write)
    → Blocks fd content offset w
    → WritesBlocks env fd content offset (make_write env w)
unfolding make_write
make_write-WritesBlocks env fd content offset w blocks = elim (Option-cases (env.pwrite w)) [
  | inl fine ↦ rw (fine, make_write) (w, blocks, refl, sym (ap error_of fine))
  | inr (e, failed) ↦ rw (failed, make_write) (w, blocks, refl, sym (ap error_of failed))
]

-- For data that a size_t can measure with one block more, write_file makes one write to its
-- descriptor and offset and returns the error of it, or data that is not whole blocks finds no
-- memory, and nothing is written and the error of aligned_alloc returned. What is written is whole
-- blocks of 8192 bytes, fewer than one block more than the data, the data first and zeros behind it.
pub write_file-Blocks :
    (env : Environment) (fd : ℕ) (content : Bytes) (offset : ℕ)
    → length content + chunk_base < 2 ^ 64
    → WritesBlocks env fd content offset (write_file env fd content offset)
      ⊎ ((length content % chunk_base ≢ 0)
          × (size : ℕ) × (e : ℤ) × (env.allocates size ≡ some e)
          × (write_file env fd content offset ≡ (e, [])))
unfolding write_file
write_file-Blocks env fd content offset h =
    let blocks = padded-Blocks fd content offset h in
    elim (Bool-cases (length content % chunk_base == 0)) [
      | inl whole ↦ rw whole (inl (make_write-WritesBlocks env fd content offset _ blocks))
      | inr rest ↦ elim (Option-cases (env.allocates (padded_size (length content)))) [
        | inl fine ↦ rw (rest, fine) (inl (make_write-WritesBlocks env fd content offset _ blocks))
        | inr (e, failed) ↦
            rw (rest, failed) (inr (ground arith, padded_size (length content), e, failed, refl))
      ]
    ]
