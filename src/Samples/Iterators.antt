-- ===== src/Samples/Iterators.antt =====
-- The theorems about iterators, on the index of an engine with two keys.
use bitcask_rs.Base.{◌≡◌, refl, true, false, Bool, [], Bytes, arith}
use bitcask_rs.Errors.{ok}
use bitcask_rs.Index.BTree.{bytes_lt}
use bitcask_rs.Index.Sorted.{IsSorted}
use bitcask_rs.Index.Iterate.{iterator, seek, take_next, filter_items, matches}
use bitcask_rs.Index.Iterate.Seek.{in_direction, is_reached, take_next-seek}
use bitcask_rs.Samples.{codec, calm, calm-IsHealthy}
use bitcask_rs.Samples.Leb.{be32}
use bitcask_rs.Samples.Strings.{be64, be128}
use bitcask_rs.Samples.Pops.{list_engine, list_engine-Refines, list_map, list_name}
use bitcask_rs.Redis.Meta.{encode_list_key}
use bitcask_rs.Iterator.{flod, iter, seek as pairs_seek}
use bitcask_rs.Iterator.Scan.{take_pairs, take_pairs-seek}
use bitcask_rs.Iterator.Fold.{pairs_of, until, flod_lem}

two_keys-IsSorted : IsSorted false list_engine.index
unfolding bytes_lt encode_list_key be128 be64 be32
two_keys-IsSorted = ((refl, tt), (tt, tt))

abbrev always : Bytes → Bytes → Bool
always key value = true

flod_lem_example :
    flod codec calm list_engine 3 always ≡ ok (until always (pairs_of list_map list_engine.index))
flod_lem_example =
    flod_lem codec calm calm-IsHealthy list_engine list_map list_engine-Refines two_keys-IsSorted
      always 3 (omega arith)

take_next-seek_example :
    take_next 2
      (seek list_name (iterator (record { prefix = []; reverse = true }) list_engine.index))
    ≡ filter_items
        (matches [])
        (filter_items (is_reached true list_name) (in_direction true list_engine.index))
take_next-seek_example =
    take_next-seek true [] list_name list_engine.index 2 two_keys-IsSorted (omega arith)

take_pairs-seek_example :
    take_pairs codec calm list_engine 2
      (pairs_seek list_name (iter (record { prefix = []; reverse = true }) list_engine))
    ≡ ok (
        pairs_of list_map (
          filter_items
            (matches [])
            (filter_items (is_reached true list_name) (in_direction true list_engine.index))))
take_pairs-seek_example =
    take_pairs-seek codec calm list_engine calm-IsHealthy list_map list_engine-Refines true []
      list_name 2 two_keys-IsSorted (omega arith)
