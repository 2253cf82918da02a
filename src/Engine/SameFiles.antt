-- ===== src/Engine/SameFiles.antt =====
-- Changes of an engine that leave its files alone: to the index, and to the counters.
use bitcask_rs.Base.{◌∙◌, ◌≡◌, refl, Option, none, some, Bytes}
use bitcask_rs.Codec.{Codec}
use bitcask_rs.Index.{Indexer}
use bitcask_rs.Data.LogRecord.{LogRecordPos}
use bitcask_rs.Engine.{Engine, add_reclaim, file_for, index_put, index_delete}
use bitcask_rs.Engine.Files.{HasManagers, HasFiles}
use bitcask_rs.Engine.Stored.{Stored}

pub record SameFiles {Ix : Type 0} (e e' : Engine Ix) : Type 0 where
  pub dir_same : e'.dir ≡ e.dir
  pub active_same : e'.active_file ≡ e.active_file
  pub older_same : e'.older_files ≡ e.older_files
  pub options_same : e'.options ≡ e.options

pub SameFiles-refl : {Ix : Type 0} (e : Engine Ix) → SameFiles e e
SameFiles-refl e = record {
  dir_same = refl;
  active_same = refl;
  older_same = refl;
  options_same = refl;
}

pub SameFiles-trans :
    {Ix : Type 0} {e e1 e2 : Engine Ix} → SameFiles e e1 → SameFiles e1 e2 → SameFiles e e2
SameFiles-trans s t = record {
  dir_same = t.dir_same ∙ s.dir_same;
  active_same = t.active_same ∙ s.active_same;
  older_same = t.older_same ∙ s.older_same;
  options_same = t.options_same ∙ s.options_same;
}

module _ {Ix : Type 0} {e e' : Engine Ix} (s : SameFiles e e') where
  pub HasFiles-same : HasFiles e → HasFiles e'
  HasFiles-same h = record {
    active_standard = rw s.active_same h.active_standard;
    older_standard = rw s.older_same h.older_standard;
    at_end = rw (s.active_same, s.dir_same) h.at_end;
    fresh = rw (s.active_same, s.dir_same) h.fresh;
  }

  pub HasManagers-same : HasManagers e → HasManagers e'
  HasManagers-same h = record {
    active_standard = rw s.active_same h.active_standard;
    older_standard = rw s.older_same h.older_standard;
  }

  pub Stored-same :
      (c : Codec) (pos : LogRecordPos) (v : Bytes) → Stored c e pos v → Stored c e' pos v
  unfolding file_for
  Stored-same c pos v st = record {
    rec = st.rec;
    fits = st.fits;
    full = st.full;
    live = st.live;
    value_of_rec = st.value_of_rec;
    before = st.before;
    after = st.after;
    at_file = rw s.dir_same st.at_file;
    at_offset = st.at_offset;
    bound = st.bound;
    file = st.file;
    known = rw (s.active_same, s.older_same) st.known;
  }

add_reclaim-SameFiles :
    {Ix : Type 0} (o : Option LogRecordPos) (e : Engine Ix) (i : Ix)
    → SameFiles e (add_reclaim o (record e { index = i }))
add_reclaim-SameFiles none e i = record {
  dir_same = refl;
  active_same = refl;
  older_same = refl;
  options_same = refl;
}
add_reclaim-SameFiles (some p) e i = record {
  dir_same = refl;
  active_same = refl;
  older_same = refl;
  options_same = refl;
}

pub index-add_reclaim :
    {Ix : Type 0} (o : Option LogRecordPos) (e : Engine Ix) → (add_reclaim o e).index ≡ e.index
index-add_reclaim none e = refl
index-add_reclaim (some p) e = refl

seq-add_reclaim :
    {Ix : Type 0} (o : Option LogRecordPos) (e : Engine Ix) → (add_reclaim o e).seq_no ≡ e.seq_no
seq-add_reclaim none e = refl
seq-add_reclaim (some p) e = refl

module _ {Ix : Type 0} (ix : Indexer Ix) (key : Bytes) where
  pub index_put-SameFiles :
      (pos : LogRecordPos) (e : Engine Ix) → SameFiles e (index_put ix key pos e)
  unfolding index_put
  index_put-SameFiles pos e = add_reclaim-SameFiles _ e _

  pub index-index_put :
      (pos : LogRecordPos) (e : Engine Ix)
      → (index_put ix key pos e).index ≡ (ix.put key pos e.index).0
  unfolding index_put
  index-index_put pos e = index-add_reclaim _ _

  pub index_delete-SameFiles : (e : Engine Ix) → SameFiles e (index_delete ix key e)
  unfolding index_delete
  index_delete-SameFiles e = add_reclaim-SameFiles _ e _

  pub index-index_delete :
      (e : Engine Ix) → (index_delete ix key e).index ≡ (ix.delete key e.index).0
  unfolding index_delete
  index-index_delete e = index-add_reclaim _ _

  pub seq-index_put :
      (pos : LogRecordPos) (e : Engine Ix) → (index_put ix key pos e).seq_no ≡ e.seq_no
  unfolding index_put
  seq-index_put pos e = seq-add_reclaim _ _

  pub seq-index_delete : (e : Engine Ix) → (index_delete ix key e).seq_no ≡ e.seq_no
  unfolding index_delete
  seq-index_delete e = seq-add_reclaim _ _
