-- ===== src/Cluster/Heap.antt =====
-- How many peers stand behind each one in a chain or a tree, as set_send_chain and set_send_tree of
-- src/client/file_sender.cpp lay them out.
use fcopy.Base.{
  ℕ, zero, suc, ◌+◌, ◌-◌, ◌*◌, ◌≤◌, ◌<◌, ◌≡◌, refl, ap, ap₂, ◌∙◌, arith, if◌then◌else◌, ltb, lt→ltb,
  le→ltb, Bool-cases, inl, inr, ltb→lt, ltb→le, min,
}
use fcopy.Client.Sender.{SendMethod, chain, tree}

-- How many of n peers get their chunks from the j-th, itself and those further on included, over a
-- number of links.
unfoldable pub size : SendMethod → ℕ → ℕ → ℕ → ℕ
size method n zero j = 0
size chain n (suc links) j =
    let rest = size chain n links (j + 1) in if ltb j n then suc rest else 0
size tree n (suc links) j =
    let rest = size tree n links (j * 2 + 1) + size tree n links (j * 2 + 2) in
    if ltb j n then suc rest else 0

module _ (n : ℕ) where
  pub size-past : (method : SendMethod) (links j : ℕ) → n ≤ j → size method n links j ≡ 0
  unfolding size
  size-past method zero j h = refl
  size-past chain (suc links) j h = rw (le→ltb j n h) refl
  size-past tree (suc links) j h = rw (le→ltb j n h) refl

  chain-size : (links j : ℕ) → n ≤ j + links → size chain n links j ≡ n - j
  unfolding size
  chain-size zero j h = omega arith
  chain-size (suc links) j h = ground (arith, chain-size links (j + 1))

  -- The sizes of a row of peers.
  sizes : ℕ → ℕ → ℕ → ℕ
  sizes links lo zero = 0
  sizes links lo (suc len) = sizes links lo len + size tree n links (lo + len)

  sizes-zero : (lo len : ℕ) → sizes 0 lo len ≡ 0
  unfolding sizes size
  sizes-zero lo zero = refl
  sizes-zero lo (suc len) = omega (arith, sizes-zero lo len)

  size-there :
      (links j : ℕ)
      → j < n
      → size tree n (suc links) j
        ≡ suc (size tree n links (j * 2 + 1) + size tree n links (j * 2 + 2))
  unfolding size
  size-there links j h = rw (lt→ltb j n h) refl

  sizes-two :
      (links lo len : ℕ)
      → sizes links (lo * 2 + 1) (suc len * 2)
        ≡ sizes links (lo * 2 + 1) (len * 2)
          + size tree n links ((lo + len) * 2 + 1)
          + size tree n links ((lo + len) * 2 + 2)
  unfolding sizes
  sizes-two links lo len =
      let count : suc len * 2 ≡ suc (suc (len * 2)) = omega arith in
      let left : lo * 2 + 1 + len * 2 ≡ (lo + len) * 2 + 1 = omega arith in
      let right : lo * 2 + 1 + suc (len * 2) ≡ (lo + len) * 2 + 2 = omega arith in
      ap (sizes links (lo * 2 + 1)) count
      ∙ ap₂ (λ a b. sizes links (lo * 2 + 1) (len * 2) + size tree n links a + size tree n links b)
          left right

  -- One more row of the heap.
  sizes-row :
      (links lo len : ℕ)
      → sizes (suc links) lo len ≡ min len (n - lo) + sizes links (lo * 2 + 1) (len * 2)
  unfolding sizes
  sizes-row links lo zero = omega arith
  sizes-row links lo (suc len) = elim (Bool-cases (ltb (lo + len) n)) [
    | inl there ↦
        let lt = ltb→lt (lo + len) n there in
        omega
          (arith, sizes-row links lo len, sizes-two links lo len, size-there links (lo + len) lt)
    | inr past ↦
        let le = ltb→le (lo + len) n past in
        omega (
          arith,
          sizes-row links lo len,
          sizes-two links lo len,
          size-past tree (suc links) (lo + len) le,
          size-past tree links ((lo + len) * 2 + 1) (omega arith),
          size-past tree links ((lo + len) * 2 + 2) (omega arith),
        )
  ]

  level : (links lo : ℕ) → n ≤ lo + links → sizes links lo (suc lo) ≡ n - lo
  level zero lo h = omega (arith, sizes-zero lo (suc lo))
  level (suc links) lo h =
      let next : sizes links (lo * 2 + 1) (suc lo * 2) ≡ n - (lo * 2 + 1) =
        ap (sizes links (lo * 2 + 1)) (omega arith) ∙ level links (lo * 2 + 1) (omega arith) in
      omega (arith, sizes-row links lo (suc lo), next)

  -- All peers get their chunks from the first one.
  pub size-all : (method : SendMethod) (links : ℕ) → n ≤ links → size method n links 0 ≡ n
  unfolding sizes
  size-all chain links h = omega (arith, chain-size links 0 (omega arith))
  size-all tree links h = omega (arith, level links 0 (omega arith))
