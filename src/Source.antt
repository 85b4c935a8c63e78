-- ===== src/Source.antt =====
-- Changes of the source file (source_change.go): what an observation of its metadata says, what is
-- recorded of it, and how far the blocks that stand in the file are trusted. Times are numbers. The
-- policies, the handler and the watcher are left out of the state.
pub mod Trust
use garland.Base.{
  ℕ, ◌+◌, ◌-◌, ◌^◌, ◌%◌, ◌≤◌, ◌<◌, ◌≡◌, ◌≢◌, refl, sym, ap, ◌∙◌, subst, Bool, true, false, not,
  ◌&&◌, ◌||◌, List, [], ◌∷◌, length, ltb, leb, ◌==◌, if◌then◌else◌, Option, none, some, arith, inl,
  inr, Bool-cases, Option-cases,
}
use garland.Rope.Mark.{same_key}

-- FileMetadata
pub record FileMetadata : Type 0 where
  pub exists : Bool
  pub size : ℕ
  pub mod_time : ℕ
  pub identity : List ℕ

pub data SourceChangeType : Type 0 where
  source_unchanged source_appended source_modified : SourceChangeType
  source_truncated source_replaced source_deleted : SourceChangeType

pub record SourceChangeInfo : Type 0 where
  pub change : SourceChangeType
  pub previous_size : ℕ
  pub current_size : ℕ
  pub appended_bytes : ℕ

pub data SourceChangeStatus : Type 0 where
  source_status_normal source_status_append_available : SourceChangeStatus
  source_status_suspect_change source_status_modified : SourceChangeStatus

pub data WarmTrustLevel : Type 0 where
  warm_trust_full warm_trust_verified warm_trust_stale warm_trust_suspended : WarmTrustLevel

-- sourceState, with the counters at which blocks were verified (warmVerification).
pub record SourceState : Type 0 where
  pub original_mtime : ℕ
  pub original_size : ℕ
  pub original_identity : List ℕ
  pub meta_tracked : Bool
  pub observed_meta : Option FileMetadata
  pub observed_at : ℕ
  pub change_counter : ℕ
  pub last_change_time : ℕ
  pub status : SourceChangeStatus
  pub user_notified_pending : Bool
  pub verified_at : ℕ → Option ℕ

-- classifySourceMeta
unfoldable pub classify_source_meta : SourceState → FileMetadata → SourceChangeInfo
unfolding same_key
classify_source_meta st meta =
    let found : SourceChangeInfo = record {
      change = source_unchanged;
      previous_size = st.original_size;
      current_size = meta.size;
      appended_bytes = 0;
    } in
    if not meta.exists
    then record found { change = source_deleted; current_size = 0 }
    else if not (length st.original_identity == 0)
        && (not (length meta.identity == 0) && not (same_key st.original_identity meta.identity))
    then record found { change = source_replaced }
    else if ltb meta.size st.original_size
    then record found { change = source_truncated }
    else if ltb st.original_size meta.size
    then record found { change = source_appended; appended_bytes = meta.size - st.original_size }
    else if not (meta.mod_time == st.original_mtime)
    then record found { change = source_modified }
    else found

-- setSourceBaselineLocked
unfoldable pub set_source_baseline : FileMetadata → ℕ → SourceState → SourceState
set_source_baseline meta now st = record st {
  original_mtime = meta.mod_time;
  original_size = meta.size;
  original_identity = meta.identity;
  meta_tracked = true;
  observed_meta = some meta;
  observed_at = now;
}

-- incrementChangeCounter: a counter of 64 bits
unfoldable pub increment_change_counter : ℕ → SourceState → SourceState
increment_change_counter now st = record st {
  change_counter = (st.change_counter + 1) % 2 ^ 64;
  last_change_time = now;
}

-- What absorbSourceObservationLocked records of a change.
unfoldable pub recorded_change : SourceChangeType → ℕ → SourceState → SourceState
unfolding increment_change_counter
recorded_change source_unchanged now st = st
recorded_change source_appended now st = record (increment_change_counter now st) {
  status = source_status_suspect_change;
}
recorded_change source_modified now st = record (increment_change_counter now st) {
  status = source_status_suspect_change;
}
recorded_change source_truncated now st = increment_change_counter now st
recorded_change source_replaced now st = increment_change_counter now st
recorded_change source_deleted now st = increment_change_counter now st

-- absorbSourceObservationLocked, by whether the file is tracked.
unfoldable pub absorb_when : Bool → FileMetadata → ℕ → SourceState → SourceChangeInfo × SourceState
unfolding classify_source_meta set_source_baseline recorded_change
absorb_when false meta now st = (
  record {
    change = source_unchanged;
    previous_size = meta.size;
    current_size = meta.size;
    appended_bytes = 0;
  },
  if meta.exists then set_source_baseline meta now st else st,
)
absorb_when true meta now st =
    let seen : SourceState = record st { observed_meta = some meta; observed_at = now } in
    let info = classify_source_meta seen meta in (info, recorded_change info.change now seen)

-- absorbSourceObservationLocked
unfoldable pub absorb_source_observation :
    FileMetadata → ℕ → SourceState → SourceChangeInfo × SourceState
unfolding absorb_when
absorb_source_observation meta now st = absorb_when st.meta_tracked meta now st

abbrev pub verified_since : ℕ → Option ℕ → Bool
verified_since counter none = false
verified_since counter (some at) = leb counter at

-- getWarmTrustLevel; a document without a source file has no state of one.
unfoldable pub get_warm_trust_level : ℕ → Option SourceState → WarmTrustLevel
get_warm_trust_level node none = warm_trust_full
get_warm_trust_level node (some st) =
    if st.change_counter == 0
    then warm_trust_full
    else if st.user_notified_pending
    then warm_trust_suspended
    else if verified_since st.change_counter (st.verified_at node)
    then warm_trust_verified
    else warm_trust_stale

-- updateWarmVerification
unfoldable pub update_warm_verification : ℕ → Option SourceState → Option SourceState
update_warm_verification node none = none
update_warm_verification node (some st) = some (record st {
  verified_at = λ n. if n == node then some st.change_counter else st.verified_at n;
})
