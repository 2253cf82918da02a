-- ===== src/Stats/Copy.antt =====
-- bitcask-rs/src/util/file.rs: `copy_dir` into a directory that was not there copies all files but
-- the lock.
use bitcask_rs.Base.{
  ◌≡◌, refl, sym, ap, ◌∙◌, true, false, if◌then◌else◌, Bool-cases, inl, inr, none, [], ◌∷◌, ◌++◌,
  append_assoc, append-nil, Bytes, All, arith,
}
use bitcask_rs.Errors.{ok}
use bitcask_rs.Fs.{
  FileName, data_name, hint_index, merge_finished, seq_no_name, flock, stray_data, name_eq,
  name_eq_iff, Dir, find, write_file,
}
use bitcask_rs.Open.DataFiles.{add_id, data_ids}
use bitcask_rs.Stats.{is_excluded, copy_files}

-- The files that a copy has.
unfoldable pub copied : Dir → Dir
copied [] = []
copied ((name, bs) ∷ d) =
    let rest = copied d in if is_excluded name then rest else (name, bs) ∷ rest

-- Each name is there once.
abbrev pub HasDistinctNames : Dir → Type 0
HasDistinctNames [] = Unit
HasDistinctNames ((name, bs) ∷ d) = (find name d ≡ none) × HasDistinctNames d

-- The names of the one are not in the other.
abbrev AreApart : Dir → Dir → Type 0
AreApart from d = All (λ f. find f.0 d ≡ none) from

write_file_new :
    (k : FileName) (bs : Bytes) (d : Dir)
    → find k d ≡ none
    → write_file k bs d ≡ d ++ ((k, bs) ∷ [])
unfolding write_file find
write_file_new k bs [] new = refl
write_file_new k bs ((j, old) ∷ d) new = elim (Bool-cases (name_eq j k)) [
  | inl here ↦ absurd (ground (arith, new, here))
  | inr there ↦ rw there (ap (λ fs. (j, old) ∷ fs) (write_file_new k bs d (rw there at new)))
]

find-snoc :
    (k j : FileName) (bs : Bytes) (d : Dir)
    → find k d ≡ none
    → name_eq j k ≡ false
    → find k (d ++ ((j, bs) ∷ [])) ≡ none
unfolding find
find-snoc k j bs [] new other = rw other refl
find-snoc k j bs ((i, old) ∷ d) new other = elim (Bool-cases (name_eq i k)) [
  | inl here ↦ absurd (ground (arith, new, here))
  | inr there ↦ rw there (find-snoc k j bs d (rw there at new) other)
]

AreApart-snoc :
    (j : FileName) (bs : Bytes) (from d : Dir)
    → find j from ≡ none
    → AreApart from d
    → AreApart from (d ++ ((j, bs) ∷ []))
unfolding find
AreApart-snoc j bs [] d new apart = tt
AreApart-snoc j bs ((k, old) ∷ from) d new (first, apart) = elim (Bool-cases (name_eq k j)) [
  | inl here ↦ absurd (ground (arith, new, here))
  | inr there ↦ (
    find-snoc k j bs d first (ground (arith, there, name_eq_iff j k, name_eq_iff k j)),
    AreApart-snoc j bs from d (rw there at new) apart,
  )
]

copy_files-copied :
    (from d : Dir)
    → HasDistinctNames from
    → AreApart from d
    → copy_files true from d ≡ (ok tt, d ++ copied from)
unfolding copy_files copied
copy_files-copied [] d names apart = ap (λ fs. (ok tt, fs)) (sym (append-nil d))
copy_files-copied ((name, bs) ∷ from) d (once, names) (new, apart) =
    elim (Bool-cases (is_excluded name)) [
      | inl excluded ↦ rw excluded (copy_files-copied from d names apart)
      | inr kept ↦ rw kept (
          rw (write_file_new name bs d new) (
            copy_files-copied from (d ++ ((name, bs) ∷ [])) names
              (AreApart-snoc name bs from d once apart))
          ∙ ap (λ fs. (ok tt, fs)) (append_assoc d ((name, bs) ∷ []) (copied from)))
    ]

AreApart-nil : (from : Dir) → AreApart from []
unfolding find
AreApart-nil [] = tt
AreApart-nil (f ∷ from) = (refl, AreApart-nil from)

pub copy_files_new :
    (from : Dir) → HasDistinctNames from → copy_files true from [] ≡ (ok tt, copied from)
copy_files_new from names = copy_files-copied from [] names (AreApart-nil from)

pub data_ids-copied : (d : Dir) → data_ids (copied d) ≡ data_ids d
unfolding data_ids copied
data_ids-copied [] = refl
data_ids-copied ((data_name id, bs) ∷ d) = ap (add_id id) (data_ids-copied d)
data_ids-copied ((hint_index, bs) ∷ d) = data_ids-copied d
data_ids-copied ((merge_finished, bs) ∷ d) = data_ids-copied d
data_ids-copied ((seq_no_name, bs) ∷ d) = data_ids-copied d
data_ids-copied ((flock, bs) ∷ d) = data_ids-copied d
data_ids-copied ((stray_data, bs) ∷ d) = refl

excluded_other :
    (name k : FileName) → is_excluded name ≡ true → is_excluded k ≡ false → name_eq name k ≡ false
excluded_other name k excluded kept = elim (Bool-cases (name_eq name k)) [
  | inl same ↦ absurd (cc (excluded, kept, ap is_excluded ((name_eq_iff name k).0 same)))
  | inr other ↦ other
]

pub find-copied : (k : FileName) (d : Dir) → is_excluded k ≡ false → find k (copied d) ≡ find k d
unfolding find copied
find-copied k [] kept = refl
find-copied k ((name, bs) ∷ d) kept = elim (Bool-cases (is_excluded name)) [
  | inl excluded ↦ rw (excluded, excluded_other name k excluded kept) (find-copied k d kept)
  | inr in_copy ↦ rw (in_copy, find-copied k d kept) refl
]
