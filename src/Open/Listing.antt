-- ===== src/Open/Listing.antt =====
-- What `open` of bitcask-rs/src/db.rs does to the files of the directory before the index is
-- loaded: their contents and the listing of the data files stay.
use bitcask_rs.Base.{
  ℕ, ltb, u32_mod, Bool-cases, inl, inr, ◌≡◌, refl, sym, ap, subst, ◌∙◌, false, if◌then◌else◌, none,
  some, List, [], ◌∷◌, arith,
}
use bitcask_rs.Errors.{Result, ok, first_of_ok, ◌>>=◌}
use bitcask_rs.Fs.{
  FileName, data_name, hint_index, merge_finished, seq_no_name, flock, stray_data, name_eq,
  name_eq_iff, Dir, Os, IsHealthy, find, content, create_file, content-create, truncate_file,
}
use bitcask_rs.Fio.{standard_fio}
use bitcask_rs.Map.{lookup, lookup-insert}
use bitcask_rs.Data.DataFile.{DataFile, open_file}
use bitcask_rs.Engine.Files.{fresh_file}
use bitcask_rs.Open.{pop_older, file_ids_of}
use bitcask_rs.Open.DataFiles.{add_id, data_ids, io_type_of, open_files}
use bitcask_rs.Open.Sorting.{member}

pub find-create_other :
    (k j : FileName) (d : Dir) → name_eq k j ≡ false → find j (create_file k d) ≡ find j d
unfolding find create_file
find-create_other k j [] other = rw other refl
find-create_other k j ((i, bs) ∷ d) other =
    ground (arith, find-create_other k j d other, name_eq_iff i k, name_eq_iff i j, other)

pub find-truncate_other :
    (k j : FileName) (d : Dir) → name_eq k j ≡ false → find j (truncate_file k d) ≡ find j d
unfolding find truncate_file
find-truncate_other k j [] other = rw other refl
find-truncate_other k j ((i, bs) ∷ d) other =
    ground (arith, find-truncate_other k j d other, name_eq_iff i k, name_eq_iff i j, other)

-- The lock file is no data file.
pub data_ids-truncate : (d : Dir) → data_ids (truncate_file flock d) ≡ data_ids d
unfolding data_ids truncate_file name_eq
data_ids-truncate [] = refl
data_ids-truncate ((data_name id, bs) ∷ d) = ap (add_id id) (data_ids-truncate d)
data_ids-truncate ((hint_index, bs) ∷ d) = data_ids-truncate d
data_ids-truncate ((merge_finished, bs) ∷ d) = data_ids-truncate d
data_ids-truncate ((seq_no_name, bs) ∷ d) = data_ids-truncate d
data_ids-truncate ((flock, bs) ∷ d) = refl
data_ids-truncate ((stray_data, bs) ∷ d) = refl

added :
    (id : ℕ) (rest : Result (List ℕ)) (ids : List ℕ)
    → add_id id rest ≡ ok ids
    → (rest >>= λ is. ok (id ∷ is)) ≡ ok ids
added id rest ids e = elim (Bool-cases (ltb id u32_mod)) [
  | inl fits ↦ rw fits at e
  | inr large ↦ cc (rw large at e)
]

-- A data file that is not listed has no bytes.
pub content-unlisted :
    (d : Dir) (ids : List ℕ) (id : ℕ)
    → data_ids d ≡ ok ids
    → member id ids ≡ false
    → content (data_name id) d ≡ []
unfolding data_ids content find name_eq
content-unlisted [] ids id listed absent = refl
content-unlisted ((data_name i, bs) ∷ d) ids id listed absent =
    let (rest, here, later) =
      first_of_ok (λ ids. ok (i ∷ ids)) (data_ids d) (added i _ ids listed) in
    let not_there : member id (i ∷ rest) ≡ false =
      subst (λ is. member id is ≡ false) {y = i ∷ rest} (sym (cc here)) absent in
    ground (arith, not_there, content-unlisted d rest id later)
content-unlisted ((hint_index, bs) ∷ d) ids id listed absent =
    content-unlisted d ids id listed absent
content-unlisted ((merge_finished, bs) ∷ d) ids id listed absent =
    content-unlisted d ids id listed absent
content-unlisted ((seq_no_name, bs) ∷ d) ids id listed absent =
    content-unlisted d ids id listed absent
content-unlisted ((flock, bs) ∷ d) ids id listed absent = content-unlisted d ids id listed absent
content-unlisted ((stray_data, bs) ∷ d) ids id listed absent = cc

abbrev pub fresh_files : List ℕ → List DataFile
fresh_files [] = []
fresh_files (id ∷ ids) = fresh_file id ∷ fresh_files ids

pub file_ids_of-fresh : (ids : List ℕ) → file_ids_of (fresh_files ids) ≡ ids
file_ids_of-fresh [] = refl
file_ids_of-fresh (id ∷ ids) = ap (λ is. id ∷ is) (file_ids_of-fresh ids)

pub lookup-pop_older :
    (id : ℕ) (ids : List ℕ)
    → lookup id (pop_older (fresh_files ids))
      ≡ (if member id ids then some (fresh_file id) else none)
unfolding lookup pop_older
lookup-pop_older id [] = refl
lookup-pop_older id (i ∷ ids) = ground (
  arith,
  lookup-insert i id (fresh_file i) (pop_older (fresh_files ids)),
  lookup-pop_older id ids,
)

-- The directory after the files are opened, each of them made if it is not there.
abbrev pub created : List ℕ → Dir → Dir
created [] d = d
created (id ∷ ids) d = created ids (create_file (data_name id) d)

pub find-created :
    (j : FileName) (ids : List ℕ) (d : Dir)
    → ((id : ℕ) → name_eq (data_name id) j ≡ false)
    → find j (created ids d) ≡ find j d
find-created j [] d other = refl
find-created j (id ∷ ids) d other =
    find-created j ids (create_file (data_name id) d) other
    ∙ find-create_other (data_name id) j d (other id)

-- Opening changes the contents of no data file.
pub content-created :
    (id : ℕ) (ids : List ℕ) (d : Dir)
    → content (data_name id) (created ids d) ≡ content (data_name id) d
content-created id [] d = refl
content-created id (i ∷ ids) d =
    content-created id ids (create_file (data_name i) d)
    ∙ content-create (data_name i) (data_name id) d

module _ (os : Os) (healthy : IsHealthy os) where
  io_type_of_lem : (ids : List ℕ) → io_type_of false ids ≡ standard_fio
  io_type_of_lem [] = refl
  io_type_of_lem (id ∷ ids) = refl

  pub open_files_lem :
      (ids : List ℕ) (d : Dir) → open_files os false ids d ≡ (ok (fresh_files ids), created ids d)
  unfolding open_files open_file
  open_files_lem [] d = refl
  open_files_lem (id ∷ ids) d =
      rw (io_type_of_lem ids, healthy.opens, open_files_lem ids (create_file (data_name id) d)) refl
