-- ===== src/Fs.antt =====
-- The data directory as the engine uses it through `std::fs`: named files with their bytes, and
-- what the operating system answers. `{:09}.data` names one file for each id.
use bitcask_rs.Base.{
  ap, Bool-cases, inl, inr, some-inj, ℕ, ◌==◌, ◌≡◌, ◌↔◌, Bool, true, false, if◌then◌else◌, Option,
  none, some, List, [], ◌∷◌, ◌++◌, Bytes, arith,
}

-- A file name of the directory. `stray_data` ends in `.data` and has no number in front.
pub data FileName : Type 0 where
  data_name : ℕ → FileName
  hint_index merge_finished seq_no_name flock stray_data : FileName

unfoldable pub name_eq : FileName → FileName → Bool
name_eq (data_name i) (data_name j) = i == j
name_eq hint_index hint_index = true
name_eq merge_finished merge_finished = true
name_eq seq_no_name seq_no_name = true
name_eq flock flock = true
name_eq stray_data stray_data = true
name_eq _ _ = false

pub name_eq_iff : (a b : FileName) → (name_eq a b ≡ true) ↔ (a ≡ b)
unfolding name_eq
name_eq_iff (data_name i) (data_name j) = ground arith
name_eq_iff hint_index hint_index = ground arith
name_eq_iff a b = ground arith

abbrev pub Dir : Type 0
Dir = List (FileName × Bytes)

-- What the calls of the operating system answer while an operation runs. `accept n` is the number
-- of bytes that a write of `n` bytes takes, `none` its failure.
pub record Os : Type 0 where
  pub open_ok : Bool
  pub map_ok : Bool
  pub read_ok : Bool
  pub sync_ok : Bool
  pub accept : ℕ → Option ℕ

-- Every call succeeds, and a write takes all its bytes.
pub record IsHealthy (os : Os) : Type 0 where
  pub opens : os.open_ok ≡ true
  pub maps : os.map_ok ≡ true
  pub reads : os.read_ok ≡ true
  pub syncs : os.sync_ok ≡ true
  pub accepts : (n : ℕ) → os.accept n ≡ some n

unfoldable pub find : FileName → Dir → Option Bytes
find k [] = none
find k ((j, bs) ∷ d) = if name_eq j k then some bs else find k d

abbrev or_empty : Option Bytes → Bytes
or_empty none = []
or_empty (some bs) = bs

-- The bytes that reads of the file see; a file that is not there has none.
unfoldable pub content : FileName → Dir → Bytes
content k d = or_empty (find k d)

-- `create(true)`: an existing file is left as it is.
unfoldable pub create_file : FileName → Dir → Dir
create_file k [] = (k, []) ∷ []
create_file k ((j, bs) ∷ d) = if name_eq j k then (j, bs) ∷ d else (j, bs) ∷ create_file k d

-- A write to a file that is open for appending.
unfoldable pub append_file : FileName → Bytes → Dir → Dir
append_file k more [] = (k, more) ∷ []
append_file k more ((j, bs) ∷ d) =
    if name_eq j k then (j, bs ++ more) ∷ d else (j, bs) ∷ append_file k more d

-- `truncate(true)`.
unfoldable pub truncate_file : FileName → Dir → Dir
truncate_file k [] = (k, []) ∷ []
truncate_file k ((j, bs) ∷ d) = if name_eq j k then (j, []) ∷ d else (j, bs) ∷ truncate_file k d

-- `remove_file`.
unfoldable pub remove_file : FileName → Dir → Dir
remove_file k [] = []
remove_file k ((j, bs) ∷ d) = if name_eq j k then d else (j, bs) ∷ remove_file k d

-- `rename` onto a name, over the file that may have it.
unfoldable pub write_file : FileName → Bytes → Dir → Dir
write_file k bs [] = (k, bs) ∷ []
write_file k bs ((j, old) ∷ d) =
    let rest = write_file k bs d in if name_eq j k then (k, bs) ∷ d else (j, old) ∷ rest

-- Opening a file for appending changes the contents of no file.
pub content-create : (k j : FileName) (d : Dir) → content j (create_file k d) ≡ content j d
unfolding content find create_file
content-create k j [] = ground arith
content-create k j ((i, bs) ∷ d) =
    ground (arith, content-create k j d, name_eq_iff i k, name_eq_iff i j)

-- A write grows its own file and no other.
pub content-append :
    (k j : FileName) (more : Bytes) (d : Dir)
    → content j (append_file k more d) ≡ (if name_eq k j then content j d ++ more else content j d)
unfolding content find append_file
content-append k j more [] = ground arith
content-append k j more ((i, bs) ∷ d) =
    ground (arith, content-append k j more d, name_eq_iff i k, name_eq_iff i j, name_eq_iff k j)

pub find-append :
    (k : FileName) (more bs : Bytes) (d : Dir)
    → find k d ≡ some bs
    → find k (append_file k more d) ≡ some (bs ++ more)
unfolding find append_file
find-append k more bs [] here = cc
find-append k more bs ((j, old) ∷ d) here = elim (Bool-cases (name_eq j k)) [
  | inl mine ↦ rw (mine, mine) (ap (λ t. some (t ++ more)) (some-inj (rw mine at here)))
  | inr other ↦ rw (other, other) (find-append k more bs d (rw other at here))
]
