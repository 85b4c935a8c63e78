-- ===== src/Examples/Sources.antt =====
-- Witnesses for the changes of a source file.
use garland.Base.{◌≡◌, refl, true, false, [], none, some, arith}
use garland.Source.{
  FileMetadata, SourceState, source_status_normal, warm_trust_stale, classify_source_meta,
  absorb_source_observation, get_warm_trust_level,
}
use garland.Source.Trust.{absorb_source_observation-distrusts}

-- A file of 10 bytes whose block 4 was verified behind its second change.
abbrev observed_file : SourceState
observed_file = record {
  original_mtime = 100;
  original_size = 10;
  original_identity = [];
  meta_tracked = true;
  observed_meta = none;
  observed_at = 100;
  change_counter = 2;
  last_change_time = 100;
  status = source_status_normal;
  user_notified_pending = false;
  verified_at = λ n. some 2;
}

-- The file with three bytes less.
abbrev shorter : FileMetadata
shorter = record { exists = true; size = 7; mod_time = 120; identity = [] }

absorb_source_observation-distrusts_example :
    get_warm_trust_level 4 (some (absorb_source_observation shorter 130 observed_file).1)
    ≡ warm_trust_stale
unfolding classify_source_meta
absorb_source_observation-distrusts_example =
    absorb_source_observation-distrusts shorter 4 130 observed_file refl (λ q. absurd cc)
      (omega arith) (λ at e. let same : 2 ≡ at = cc e in omega (arith, same))
