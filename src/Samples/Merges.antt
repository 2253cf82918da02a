-- ===== src/Samples/Merges.antt =====
-- The theorems about the merge, at an engine with two data files and a hint file with one entry.
use bitcask_rs.Base.{◌++◌, ◌<◌, ◌+◌, ◌≡◌, refl, some, List, [], ◌∷◌, length, arith}
use bitcask_rs.Errors.{ok}
use bitcask_rs.Fs.{Dir, hint_index, name_eq, find}
use bitcask_rs.Index.BTree.{BTree, btree_indexer}
use bitcask_rs.Samples.{codec, calm, calm-IsHealthy}
use bitcask_rs.Samples.Leb.{leb_encode, be32}
use bitcask_rs.Samples.Engines.{empty_engine}
use bitcask_rs.Samples.Loads.{view_after}
use bitcask_rs.Samples.Reopens.{two_files, two_files-Refines}
use bitcask_rs.Data.LogRecord.{encode_pos}
use bitcask_rs.Data.LogRecord.Encode.{Fits, record_bytes}
use bitcask_rs.Data.DataFile.{write_hint_record, DataFile, write_hint_record}
use bitcask_rs.Engine.{Engine}
use bitcask_rs.Engine.Refine.{Refines}
use bitcask_rs.Open.Listing.{fresh_files}
use bitcask_rs.Merge.Rotate.{ratate_merge_files}
use bitcask_rs.Merge.Closed.{merged_ids, ratate_merge_files-Refines}
use bitcask_rs.Merge.Hint.{load_index_from_hint_file}
use bitcask_rs.Merge.Hint.Replay.{
  Hint, hint_record, hint_bytes, put_all, hint_file, write_hint_record-load, IsHint,
}

ratate_merge_files-Refines_example :
    (e' : Engine BTree) × (ratate_merge_files calm two_files
      ≡ (ok (fresh_files (merged_ids two_files)), e'))
    × Refines btree_indexer codec e' view_after.store
    × (e'.active_file.file_id ≡ 1 + 1)
ratate_merge_files-Refines_example =
    ratate_merge_files-Refines btree_indexer codec calm calm-IsHealthy two_files view_after.store
      two_files-Refines (omega arith)

abbrev a_hint : Hint
a_hint = (b'k' ∷ [], record { file_id = 3; offset = 40; size = 17 })

abbrev hints : List Hint
hints = a_hint ∷ []

-- An engine whose directory has just the hint file.
abbrev hinted : Engine BTree
hinted = record empty_engine { dir = (hint_index, hint_bytes codec hints) ∷ [] }

hint-Fits : Fits (hint_record codec a_hint)
unfolding encode_pos leb_encode
hint-Fits = record { key_fits = omega arith; value_fits = omega arith }

a_hint-IsHint : IsHint codec a_hint
a_hint-IsHint = record {
  fits = hint-Fits;
  full = omega arith;
  pos_fits = record { id_fits = omega arith; offset_fits = omega arith; size_fits = omega arith };
}

hints_short : length (hint_bytes codec hints) < 18446744073709551616
unfolding record_bytes leb_encode be32 encode_pos
hints_short = omega arith

at_name : find hint_index hinted.dir ≡ some (hint_bytes codec hints)
unfolding find name_eq
at_name = refl

abbrev next_hint : Hint
next_hint = (b'j' ∷ [], record { file_id = 4; offset = 0; size = 21 })

next_hint-Fits : Fits (hint_record codec next_hint)
unfolding encode_pos leb_encode
next_hint-Fits = record { key_fits = omega arith; value_fits = omega arith }

next_hint-IsHint : IsHint codec next_hint
next_hint-IsHint = record {
  fits = next_hint-Fits;
  full = omega arith;
  pos_fits = record { id_fits = omega arith; offset_fits = omega arith; size_fits = omega arith };
}

both_short : length (hint_bytes codec (hints ++ (next_hint ∷ []))) < 18446744073709551616
unfolding record_bytes leb_encode be32 encode_pos
both_short = omega arith

write_hint_record-load_example :
    (f' : DataFile) × (d : Dir) × (write_hint_record codec calm
        (hint_file btree_indexer codec calm calm-IsHealthy)
        next_hint.0
        next_hint.1
        hinted.dir
      ≡ (ok tt, f', d))
    × (load_index_from_hint_file btree_indexer codec calm 3 (record hinted { dir = d })
        ≡ ok (record hinted {
          dir = d;
          index = put_all btree_indexer (hints ++ (next_hint ∷ [])) hinted.index;
        }))
write_hint_record-load_example =
    write_hint_record-load btree_indexer codec calm calm-IsHealthy hinted hints next_hint 3 at_name
      (a_hint-IsHint, (next_hint-IsHint, tt)) next_hint-Fits (omega arith) both_short
