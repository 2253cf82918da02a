-- ===== src/Open/Sorting.antt =====
-- `file_ids.sort()` in `load_data_files` of bitcask-rs/src/db.rs: the ids come in ascending order.
use bitcask_rs.Base.{
  ℕ, suc, ◌≤◌, ◌<◌, ◌==◌, leb, ◌≡◌, ◌≢◌, subst, refl, ◌∙◌, ap, Bool, true, false, ◌||◌, Bool-cases,
  inl, inr, List, [], ◌∷◌, arith,
}
use bitcask_rs.Open.DataFiles.{insert_id, sort_ids}

abbrev pub member : ℕ → List ℕ → Bool
member j [] = false
member j (i ∷ is) = (i == j) || member j is

abbrev pub IsDistinct : List ℕ → Type 0
IsDistinct [] = Unit
IsDistinct (i ∷ is) = (member i is ≡ false) × IsDistinct is

-- Strictly ascending from a lower bound on.
abbrev pub IsAscending : ℕ → List ℕ → Type 0
IsAscending lo [] = Unit
IsAscending lo (i ∷ is) = (lo ≤ i) × IsAscending (suc i) is

pub member_below : (lo id : ℕ) (ids : List ℕ) → IsAscending lo ids → id < lo → member id ids ≡ false
member_below lo id [] up below = refl
member_below lo id (i ∷ ids) (low, up) below =
    ground (arith, member_below (suc i) id ids up (omega arith))

pub member-insert_id :
    (j n : ℕ) (ids : List ℕ) → member j (insert_id n ids) ≡ ((n == j) || member j ids)
unfolding insert_id
member-insert_id j n [] = refl
member-insert_id j n (i ∷ ids) = ground (arith, member-insert_id j n ids)

insert_id-IsAscending :
    (lo n : ℕ) (ids : List ℕ)
    → lo ≤ n
    → member n ids ≡ false
    → IsAscending lo ids
    → IsAscending lo (insert_id n ids)
unfolding insert_id
insert_id-IsAscending lo n [] low new up = (low, tt)
insert_id-IsAscending lo n (i ∷ ids) low new (first, up) = elim (Bool-cases (leb n i)) [
  | inl before ↦ rw before (low, (ground (arith, new, before), up))
  | inr later ↦
      rw later (
        first,
        insert_id-IsAscending (suc i) n ids (ground (arith, later)) (ground (arith, new)) up,
      )
]

pub member-sort_ids : (j : ℕ) (ids : List ℕ) → member j (sort_ids ids) ≡ member j ids
unfolding sort_ids
member-sort_ids j [] = refl
member-sort_ids j (i ∷ ids) =
    member-insert_id j i (sort_ids ids) ∙ ap (λ b. (i == j) || b) (member-sort_ids j ids)

-- Sorting different ids gives them in strictly ascending order.
pub sort_ids-IsAscending : (ids : List ℕ) → IsDistinct ids → IsAscending 0 (sort_ids ids)
unfolding sort_ids
sort_ids-IsAscending [] differ = tt
sort_ids-IsAscending (i ∷ ids) (new, differ) =
    insert_id-IsAscending 0 i (sort_ids ids) (omega arith) (member-sort_ids i ids ∙ new)
      (sort_ids-IsAscending ids differ)

cons_of : (ids : List ℕ) → ids ≢ [] → (i : ℕ) × (is : List ℕ) × (ids ≡ i ∷ is)
cons_of [] some_id = absurd (some_id refl)
cons_of (i ∷ is) some_id = (i, is, refl)

sort_ids-ne_nil : (ids : List ℕ) → ids ≢ [] → sort_ids ids ≢ []
sort_ids-ne_nil [] some_id none_left = some_id refl
sort_ids-ne_nil (i ∷ is) some_id none_left =
    let here : member i (i ∷ is) ≡ true = ground arith in
    let there : member i [] ≡ true =
      subst (λ js. member i js ≡ true) none_left (member-sort_ids i (i ∷ is) ∙ here) in
    cc

pub sort_ids-cons : (ids : List ℕ) → ids ≢ [] → (i : ℕ) × (is : List ℕ) × (sort_ids ids ≡ i ∷ is)
sort_ids-cons ids some_id = cons_of (sort_ids ids) (sort_ids-ne_nil ids some_id)
