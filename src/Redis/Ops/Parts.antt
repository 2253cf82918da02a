-- ===== src/Redis/Ops/Parts.antt =====
-- redis/src/meta.rs: the keys of a list's elements differ from each other and from the list's key,
-- and what is written under other keys leaves the elements alone.
use bitcask_rs.Base.{
  ℕ, suc, ◌+◌, ◌≤◌, ◌<◌, ◌==◌, ◌≡◌, ◌≢◌, sym, ap, ◌∙◌, false, true, Bool-cases, inl, inr, some,
  some-inj, List, [], ◌∷◌, ◌++◌, append-nil, Bytes, bytes_eq, bytes_eq_iff, length, u64_mod, arith,
}
use bitcask_rs.Codec.{Codec}
use bitcask_rs.Engine.Refine.{Store, store_put}
use bitcask_rs.Redis.{Buf}
use bitcask_rs.Redis.Meta.{encode_list_key}

append_cancel {ℓ} : {A : Type ℓ} (zs xs ys : List A) → zs ++ xs ≡ zs ++ ys → xs ≡ ys
append_cancel [] xs ys same = same
append_cancel (z ∷ zs) xs ys same = append_cancel zs xs ys cc

append_none {ℓ} : {A : Type ℓ} (xs ys : List A) → xs ++ ys ≡ [] → ys ≡ []
append_none [] ys none_there = none_there
append_none (x ∷ xs) ys none_there = cc

pub differ-eq : (k j : Bytes) → k ≢ j → bytes_eq k j ≡ false
differ-eq k j other = elim (Bool-cases (bytes_eq k j)) [
  | inl same ↦ absurd (other ((bytes_eq_iff k j).0 same))
  | inr differ ↦ differ
]

module _ (b : Buf) where
  get_u64_all : (n : ℕ) → n < u64_mod → b.get_u64 (b.put_u64 n) ≡ some (n, [])
  get_u64_all n h = rw append-nil at (b.get_u64_put n [] h)

  put_u64-inj : (i j : ℕ) → i < u64_mod → j < u64_mod → b.put_u64 i ≡ b.put_u64 j → i ≡ j
  put_u64-inj i j hi hj same =
      ap (λ p. p.0)
        (some-inj (sym (get_u64_all i hi) ∙ ap (λ bs. b.get_u64 bs) same ∙ get_u64_all j hj))

  -- A number without bytes would be read for any other.
  put_u64_other : (i j : ℕ) → i < u64_mod → j < u64_mod → b.put_u64 i ≡ [] → i ≡ j
  put_u64_other i j hi hj none_there =
      ap (λ p. p.0)
        (some-inj (
          sym (b.get_u64_put i (b.put_u64 j) hi)
          ∙ ap (λ bs. b.get_u64 (bs ++ b.put_u64 j)) none_there
          ∙ get_u64_all j hj))

  put_u64_full : (i : ℕ) → i < u64_mod → b.put_u64 i ≢ []
  put_u64_full i hi none_there = elim (Bool-cases (i == 0)) [
    | inl is_zero ↦ ground (arith, is_zero, put_u64_other i 1 hi (omega arith) none_there)
    | inr more ↦ ground (arith, more, put_u64_other i 0 hi (omega arith) none_there)
  ]

module _ (c : Codec) (b : Buf) (key : Bytes) (version : ℕ) where
  -- The key of an element.
  abbrev pub part_at : ℕ → Bytes
  part_at i = encode_list_key c b (record { key = key; version = version; index = i })

  pub parts_differ :
      (i j : ℕ) → i < u64_mod → j < u64_mod → i ≢ j → bytes_eq (part_at i) (part_at j) ≡ false
  unfolding encode_list_key
  parts_differ i j hi hj other = differ-eq (part_at i) (part_at j) (λ same. other (
      put_u64-inj b i j hi hj (
        append_cancel (b.put_u128 version) (b.put_u64 i) (b.put_u64 j) (
          append_cancel key (b.put_u128 version ++ b.put_u64 i) (b.put_u128 version ++ b.put_u64 j)
            same))))

  pub key_differs : (i : ℕ) → i < u64_mod → bytes_eq key (part_at i) ≡ false
  unfolding encode_list_key
  key_differs i hi = differ-eq key (part_at i) (λ same. put_u64_full b i hi (
      append_none (b.put_u128 version) (b.put_u64 i)
        (sym (append_cancel key [] (b.put_u128 version ++ b.put_u64 i) (append-nil key ∙ same)))))

  pub part_differs : (i : ℕ) → i < u64_mod → bytes_eq (part_at i) key ≡ false
  part_differs i hi =
      differ-eq (part_at i) key
        (λ same. ground (arith, key_differs i hi, (bytes_eq_iff key (part_at i)).1 (sym same)))

-- The map has these elements, in UTF-8, under the keys from an index on.
abbrev pub Elements : Buf → (ℕ → Bytes) → Store → ℕ → List Bytes → Type 0
Elements b at m lo [] = Unit
Elements b at m lo (x ∷ xs) =
    (m (at lo) ≡ some x) × (b.is_utf8 x ≡ true) × Elements b at m (suc lo) xs

module _ (b : Buf) (at : ℕ → Bytes) where
  pub Elements-put :
      (m : Store) (k v : Bytes) (lo : ℕ) (xs : List Bytes)
      → ((i : ℕ) → lo ≤ i → i < lo + length xs → bytes_eq k (at i) ≡ false)
      → Elements b at m lo xs
      → Elements b at (store_put k v m) lo xs
  Elements-put m k v lo [] other all = tt
  Elements-put m k v lo (x ∷ xs) other (here, text, all) = (
    rw (other lo (omega arith) (omega arith)) here,
    text,
    Elements-put m k v (suc lo) xs (λ i low high. other i (omega arith) (omega arith)) all,
  )

  pub Elements-snoc :
      (m : Store) (lo : ℕ) (xs : List Bytes) (x : Bytes)
      → Elements b at m lo xs
      → m (at (lo + length xs)) ≡ some x
      → b.is_utf8 x ≡ true
      → Elements b at m lo (xs ++ (x ∷ []))
  Elements-snoc m lo [] x all here text =
      (ap (λ i. m (at i)) {y = lo + 0} (omega arith) ∙ here, text, tt)
  Elements-snoc m lo (y ∷ xs) x (first, is, all) here text = (
    first,
    is,
    Elements-snoc m (suc lo) xs x all
        (ap (λ i. m (at i)) {y = lo + suc (length xs)} (omega arith) ∙ here) text,
  )

  pub Elements-last :
      (m : Store) (lo : ℕ) (xs : List Bytes) (x : Bytes)
      → Elements b at m lo (xs ++ (x ∷ []))
      → (m (at (lo + length xs)) ≡ some x) × (b.is_utf8 x ≡ true) × Elements b at m lo xs
  Elements-last m lo [] x (here, text, all) =
      (ap (λ i. m (at i)) {y = lo} (omega arith) ∙ here, text, tt)
  Elements-last m lo (y ∷ xs) x (first, is, all) =
      let (here, text, rest) = Elements-last m (suc lo) xs x all in
      (ap (λ i. m (at i)) {y = suc lo + length xs} (omega arith) ∙ here, text, (first, is, rest))
