-- ===== src/Source/Trust.antt =====
-- How far a block of the source file is trusted after a change of the file.
use garland.Base.{
  ℕ, ◌+◌, ◌^◌, ◌%◌, ◌≤◌, ◌<◌, ◌≡◌, ◌≢◌, refl, ap, ◌∙◌, true, false, ◌==◌, if◌then◌else◌, some,
  arith, inl, inr, Option-cases, ne→==, gt→leb,
}
use garland.Source.{
  FileMetadata, absorb_when, SourceChangeType, source_unchanged, source_appended, source_modified,
  source_truncated, source_replaced, source_deleted, SourceState, WarmTrustLevel, warm_trust_stale,
  warm_trust_suspended, classify_source_meta, increment_change_counter, recorded_change,
  verified_since, absorb_source_observation, get_warm_trust_level,
}

-- The level of a block that was not verified since the last change.
abbrev pub distrusted : SourceState → WarmTrustLevel
distrusted st = if st.user_notified_pending then warm_trust_suspended else warm_trust_stale

module _ (node now : ℕ) (st : SourceState) (few : st.change_counter + 1 < 2 ^ 64)
    (known : (at : ℕ) → st.verified_at node ≡ some at → at ≤ st.change_counter) where
  not_since : verified_since (st.change_counter + 1) (st.verified_at node) ≡ false
  not_since = elim (Option-cases (st.verified_at node)) [
    | inl q ↦ rw q
    | inr (at, q) ↦ rw q (gt→leb _ _ (omega (arith, known at q)))
  ]

  counted-distrusted :
      get_warm_trust_level node (some (increment_change_counter now st)) ≡ distrusted st
  unfolding get_warm_trust_level increment_change_counter
  counted-distrusted =
      let next : (st.change_counter + 1) % 2 ^ 64 ≡ st.change_counter + 1 = omega (arith, few) in
      let changed : (st.change_counter + 1 == 0) ≡ false = ne→== _ _ (λ q. omega (arith, q)) in
      rw (next, changed, not_since)

  recorded-distrusted :
      (c : SourceChangeType)
      → c ≢ source_unchanged
      → get_warm_trust_level node (some (recorded_change c now st)) ≡ distrusted st
  unfolding get_warm_trust_level recorded_change
  recorded-distrusted source_unchanged other = absurd (other refl)
  recorded-distrusted source_appended other = counted-distrusted
  recorded-distrusted source_modified other = counted-distrusted
  recorded-distrusted source_truncated other = counted-distrusted
  recorded-distrusted source_replaced other = counted-distrusted
  recorded-distrusted source_deleted other = counted-distrusted

-- When an observation of a tracked source file says that it changed, in whatever way, no block that
-- was verified before is trusted afterwards: the level of each is stale, or suspended while the user
-- has not answered. The counter of changes has not run over, and no block was verified at a later
-- count.
pub absorb_source_observation-distrusts :
    (meta : FileMetadata) (node now : ℕ) (st : SourceState)
    → st.meta_tracked ≡ true
    → (classify_source_meta st meta).change ≢ source_unchanged
    → st.change_counter + 1 < 2 ^ 64
    → ((at : ℕ) → st.verified_at node ≡ some at → at ≤ st.change_counter)
    → get_warm_trust_level node (some (absorb_source_observation meta now st).1)
      ≡ (if st.user_notified_pending then warm_trust_suspended else warm_trust_stale)
unfolding absorb_source_observation absorb_when classify_source_meta
absorb_source_observation-distrusts meta node now st tracked changed few known =
    let seen : SourceState = record st { observed_meta = some meta; observed_at = now } in
    ap (λ b. get_warm_trust_level node (some (absorb_when b meta now st).1)) tracked
    ∙ recorded-distrusted node now seen few known (classify_source_meta seen meta).change changed
