-- ===== src/Redis/ZSet.antt =====
-- redis/src/types.rs and redis/src/meta.rs: the sorted sets. Their scores are `f64`, which is a
-- parameter with its printing and its comparison.
use bitcask_rs.Base.{
  ℕ, ◌<◌, ◌==◌, ◌≡◌, ◌≢◌, refl, Bool, true, false, not, if◌then◌else◌, Option, some, none, [], ◌++◌,
  Bytes, length, as_u32,
}
use bitcask_rs.Errors.{Result, ok, err, panic, stuck, is_key_not_found, or_panic, ◌>>=◌ as and_then}
use bitcask_rs.Exec.{Exec, pure, lift, reads, ◌>>=◌, ◌>>◌}
use bitcask_rs.Codec.{Codec}
use bitcask_rs.Fs.{Os, IsHealthy}
use bitcask_rs.Index.{Indexer}
use bitcask_rs.Engine.{Engine, get}
use bitcask_rs.Engine.Refine.{Store, Refines, get-Refines}
use bitcask_rs.Batch.{WriteBatch, batch_put}
use bitcask_rs.Redis.{Buf, Clock, zset}
use bitcask_rs.Redis.Meta.{Metadate, MetaFits, encode_metadata}
use bitcask_rs.Redis.Ops.{
  utf8, batched, find_metadata, start_batch, delete_in, commit_batch, count_unless,
}
use bitcask_rs.Redis.Ops.Pops.{
  IsLive, metadata_from-live, not_empty, append_not_empty, positive_size,
}

-- `f64`: a number that is equal to itself is read back from its text, and the text is UTF-8.
pub record Floats (b : Buf) (F : Type 0) : Type 0 where
  pub to_string : F → Bytes
  pub parse : Bytes → Option F
  pub eq : F → F → Bool
  pub zero : F
  pub minus_one : F
  pub parse_to_string : (x : F) → eq x x ≡ true → parse (to_string x) ≡ some x
  pub utf8_to_string : (x : F) → b.is_utf8 (to_string x) ≡ true

pub record ZSetInternalKey (F : Type 0) : Type 0 where
  pub key : Bytes
  pub version : ℕ
  pub score : F
  pub member : Bytes

module _ (c : Codec) (b : Buf) {F : Type 0} (fl : Floats b F) where
  unfoldable pub encode_member : ZSetInternalKey F → Bytes
  encode_member k = k.key ++ (b.put_u128 k.version ++ k.member)

  unfoldable pub encode_score : ZSetInternalKey F → Bytes
  encode_score k =
      k.key
      ++ (b.put_u128 k.version
          ++ (fl.to_string k.score ++ (k.member ++ c.put_u32 (as_u32 (length k.member)))))

  -- The score in a member's value.
  abbrev pub score_in : Bytes → Result F
  score_in v = and_then (utf8 b v) λ text. or_panic (fl.parse text)

  -- The old score, if the member is there.
  abbrev pub old_score : Result Bytes → Result (Option F)
  old_score (ok v) = and_then (score_in v) λ s. ok (some s)
  old_score (err e) = if is_key_not_found e then ok none else err e
  old_score panic = panic
  old_score stuck = stuck

  -- Whether the member has just this score.
  abbrev pub same_score : Option F → F → Bool
  same_score none score = false
  same_score (some old) score = fl.eq old score

  abbrev pub has_score : Option F → Bool
  has_score none = false
  has_score (some old) = true

  module _ {Ix : Type 0} (ix : Indexer Ix) (os : Os) (clock : Clock) where
    abbrev pub zset_key : Bytes → Metadate → F → Bytes → ZSetInternalKey F
    zset_key key meta score member = record {
      key = key;
      version = meta.version;
      score = score;
      member = member;
    }

    -- The entry under the old score goes.
    abbrev delete_old :
        Option F → Bytes → Metadate → Bytes → WriteBatch → Exec (Engine Ix) WriteBatch
    delete_old none key meta member wb = pure wb
    delete_old (some old) key meta member wb =
        delete_in ix c os b clock (encode_score (zset_key key meta old member)) wb

    abbrev add_score : Bool → Option F → Bytes → Metadate → F → Bytes → Exec (Engine Ix) Bool
    add_score true old key meta score member = pure false
    add_score false old key meta score member = do
      wb0 ← start_batch ix c os b clock
      wb1 ← lift (count_unless ix c os b clock (has_score old) key meta wb0)
      wb2 ← delete_old old key meta member wb1
      wb3 ← lift (
          batched
            (batch_put (encode_member (zset_key key meta score member)) (fl.to_string score) wb2))
      wb4 ← lift (batched (batch_put (encode_score (zset_key key meta score member)) [] wb3))
      commit_batch ix c os b clock wb4
      pure (not (has_score old))

    unfoldable pub zadd : Bytes → F → Bytes → Exec (Engine Ix) Bool
    zadd key score member = do
      meta ← find_metadata ix c os b clock key zset
      old ← reads (λ e. old_score (get ix c os (encode_member (zset_key key meta score member)) e))
      add_score (same_score old score) old key meta score member

    abbrev zscore_sized : Bool → Bytes → Bytes → Metadate → Exec (Engine Ix) F
    zscore_sized true key member meta = pure fl.minus_one
    zscore_sized false key member meta = do
      score ← reads (get ix c os (encode_member (zset_key key meta fl.zero member)))
      lift (score_in score)

    unfoldable pub zscore : Bytes → Bytes → Exec (Engine Ix) F
    zscore key member = do
      meta ← find_metadata ix c os b clock key zset
      zscore_sized (meta.size == 0) key member meta

    -- A member's key does not depend on the score.
    get_member :
        (e : Engine Ix) (m : Store) (key member : Bytes) (meta : Metadate) (score any : F)
        → IsHealthy os
        → Refines ix c e m
        → key ≢ []
        → m (encode_member (zset_key key meta score member)) ≡ some (fl.to_string score)
        → get ix c os (encode_member (zset_key key meta any member)) e ≡ ok (fl.to_string score)
    unfolding encode_member
    get_member e m key member meta score any healthy h ne at_member =
        rw
          (
            get-Refines ix c os healthy e m (key ++ (b.put_u128 meta.version ++ member)) h,
            append_not_empty key (b.put_u128 meta.version ++ member) ne,
            at_member,
          )
          refl

    get_meta :
        (e : Engine Ix) (m : Store) (key : Bytes) (meta : Metadate)
        → IsHealthy os
        → Refines ix c e m
        → key ≢ []
        → m key ≡ some (encode_metadata c b meta)
        → get ix c os key e ≡ ok (encode_metadata c b meta)
    get_meta e m key meta healthy h ne held =
        rw (get-Refines ix c os healthy e m key h, not_empty key ne, held) refl

    -- With a working operating system, on an engine that holds a map in which a non-empty key has
    -- the live metadata of a sorted set with members, and a member's key the text of a score that is
    -- equal to itself, `zscore` answers that score, and `zadd` of the same score answers false;
    -- neither changes anything.
    pub zscore-Refines :
        (e : Engine Ix) (m : Store) (key member : Bytes) (meta : Metadate) (score : F)
        → IsHealthy os
        → Refines ix c e m
        → key ≢ []
        → m key ≡ some (encode_metadata c b meta)
        → MetaFits meta
        → meta.data_type ≡ zset
        → IsLive clock meta
        → 0 < meta.size
        → fl.eq score score ≡ true
        → m (encode_member (zset_key key meta score member)) ≡ some (fl.to_string score)
        → (zscore key member e ≡ (ok score, e)) × (zadd key score member e ≡ (ok false, e))
    unfolding zscore zadd find_metadata
    zscore-Refines e m key member meta score healthy h ne held fits is_zset live some_member itself
          at_member =
        (
          rw
              (
                get_meta e m key meta healthy h ne held,
                metadata_from-live c b clock meta zset fits is_zset live,
                positive_size meta.size some_member,
                get_member e m key member meta score fl.zero healthy h ne at_member,
                fl.utf8_to_string score,
                fl.parse_to_string score itself,
              )
              refl,
          rw
              (
                get_meta e m key meta healthy h ne held,
                metadata_from-live c b clock meta zset fits is_zset live,
                get_member e m key member meta score score healthy h ne at_member,
                fl.utf8_to_string score,
                fl.parse_to_string score itself,
                itself,
              )
              refl,
        )
