-- ===== src/Iterator.antt =====
-- bitcask-rs/src/iterator.rs: iteration over the engine's pairs, with the BTree index.
pub mod Fold
pub mod Scan
use bitcask_rs.Base.{
  ℕ, zero, suc, Bool, true, false, if◌then◌else◌, Option, none, some, List, [], ◌∷◌, Bytes,
}
use bitcask_rs.Errors.{Result, ok, err, panic, stuck, ◌>>=◌}
use bitcask_rs.Codec.{Codec}
use bitcask_rs.Fs.{Os}
use bitcask_rs.Options.{IteratorOptions}
use bitcask_rs.Index.BTree.{BTree, list_keys}
use bitcask_rs.Index.Iterate.{
  Item, BTreeIterator, iterator, rewind as index_rewind, seek as index_seek, next,
}
use bitcask_rs.Engine.{Engine, get_value_by_position}

abbrev pub Pair : Type 0
Pair = Bytes × Bytes

-- `Engine::iter`
unfoldable pub iter : IteratorOptions → Engine BTree → BTreeIterator
iter options e = iterator options e.index

-- `Engine::list_keys`
unfoldable pub engine_keys : Engine BTree → List Bytes
engine_keys e = list_keys e.index

-- `Iterator::rewind`
unfoldable pub rewind : BTreeIterator → BTreeIterator
rewind it = index_rewind it

-- `Iterator::seek`
unfoldable pub seek : Bytes → BTreeIterator → BTreeIterator
seek key it = index_seek key it

-- A value that cannot be read ends the iteration, as `None` does.
abbrev pub value_pair : Bytes → Result Bytes → Result (Option Pair)
value_pair key (ok value) = ok (some (key, value))
value_pair key (err e) = ok none
value_pair key panic = panic
value_pair key stuck = stuck

module _ (c : Codec) (os : Os) (e : Engine BTree) where
  abbrev pub pair_at : Option Item → Result (Option Pair)
  pair_at none = ok none
  pair_at (some (key, pos)) = value_pair key (get_value_by_position c os e pos)

  -- `Iterator::next`
  unfoldable pub next_pair : BTreeIterator → Result (Option Pair) × BTreeIterator
  next_pair it = let (item, it') = next it in (pair_at item, it')

  -- One round of the loop of `flod`: the pairs that the function is called with.
  abbrev pub visit : (Bytes → Bytes → Bool) → Option Pair → Result (List Pair) → Result (List Pair)
  visit f none rest = ok []
  visit f (some (key, value)) rest =
      if f key value then (rest >>= λ ps. ok ((key, value) ∷ ps)) else ok ((key, value) ∷ [])

  unfoldable pub flod_from : ℕ → (Bytes → Bytes → Bool) → BTreeIterator → Result (List Pair)
  unfolding next_pair
  flod_from zero f it = stuck
  flod_from (suc fuel) f it =
      let (r, it') = next_pair it in let rest = flod_from fuel f it' in r >>= λ o. visit f o rest

  -- `Engine::flod`, with the default options.
  unfoldable pub flod : ℕ → (Bytes → Bytes → Bool) → Result (List Pair)
  unfolding flod_from iter
  flod fuel f = flod_from fuel f (iter (record { prefix = []; reverse = false }) e)
