-- ===== src/History/Shows/Mutation.antt =====
-- recordMutation outside a transaction: the document shows the text that its root stands for,
-- whether the edit makes a revision or goes on a run.
use garland.Base.{
  ℕ, ◌≡◌, refl, sym, subst, List, ◌==◌, ◌&&◌, Option, none, some, inl, inr, Bool-cases, ==→eq,
  ==_refl, and-left, and-right,
}
use garland.Heap.Later.{SameNodes, Valid-same, Sound-same, Represents-later}
use garland.Coalesce.{CoalescePending}
use garland.History.{State, RevisionInfo, record_amend, record_mutation, amend_or_new}
use garland.History.Fork.{WellFormed, Reached}
use garland.History.Mutation.{
  consumed, consumed-WellFormed, record_mutation-outside, amend_or_new-new, amend_or_new-amend,
}
use garland.History.Shows.{Holds, Shows, IsKept, Counts}
use garland.History.Shows.Record.{rooted, recorded-Shows}

module _ (pc : CoalescePending) (info : RevisionInfo) (now : ℕ) (s : State) (bs : List ℕ)
    (holds : Holds s.heap s.root bs) where
  amend-SameNodes : SameNodes s.heap (record_amend pc info now s).1.heap
  unfolding record_amend
  amend-SameNodes = record { same_registry = refl; same_children = refl; same_next = refl }

  amend-Holds : Holds (record_amend pc info now s).1.heap s.root bs
  unfolding record_amend
  amend-Holds = record {
    rope = holds.rope;
    valid = Valid-same amend-SameNodes holds.valid;
    sound = Sound-same amend-SameNodes holds.sound;
    here =
        Represents-later amend-SameNodes s.heap.current_fork s.heap.current_revision
          s.heap.current_fork s.heap.current_revision (λ n e. e) holds.valid s.root holds.rope
          holds.here;
    same_text = holds.same_text;
  }

  amend-known :
      WellFormed s
      → (f r : ℕ) (i : RevisionInfo) → (record_amend pc info now s).1.revision_info f r ≡ some i
      → Reached s.heap.forks f r
  unfolding record_amend
  amend-known w f r i e =
      elim (Bool-cases ((f == s.heap.current_fork) && (r == s.heap.current_revision))) [
        | inl q ↦
            let f_is : f ≡ s.heap.current_fork =
              ==→eq f s.heap.current_fork (and-left _ (r == s.heap.current_revision) q) in
            let r_is : r ≡ s.heap.current_revision =
              ==→eq r s.heap.current_revision (and-right (f == s.heap.current_fork) _ q) in
            rw (f_is, r_is) w.current
        | inr q ↦ w.known f r i (rw q at e)
      ]

  amend-Shows :
      Counts s bs
      → s.transaction ≡ none
      → WellFormed s
      → info.revision ≡ s.heap.current_revision
      → IsKept s
      → Shows (record_amend pc info now s).1 bs
  unfolding record_amend
  amend-Shows counted outside w same kept =
      let r = rooted s.heap s.root bs holds in
      record {
        holds = amend-Holds;
        counted = counted;
        outside = outside;
        well_formed = record { known = amend-known w; numbered = w.numbered; current = w.current };
        filed = record {
          info = record info { root_id = s.root; stream_known_bytes = s.stream_known };
          filed = rw (==_refl s.heap.current_fork, ==_refl s.heap.current_revision) refl;
          same_revision = same;
          same_root = refl;
          has_root = holds.sound.positive s.root r.node r.registered;
          node = r.node;
          registered = r.registered;
        };
        kept = kept;
      }

module _ (now : ℕ) (bs : List ℕ) (info : RevisionInfo) where
  amend_or_new-Shows :
      (pc : Option CoalescePending) (s : State)
      → Holds s.heap s.root bs
      → Counts s bs
      → s.transaction ≡ none
      → WellFormed s
      → s.revision_info s.heap.current_fork s.heap.current_revision ≡ some info
      → info.revision ≡ s.heap.current_revision
      → IsKept s
      → Shows (amend_or_new pc now s).1 bs
  amend_or_new-Shows none s holds counted outside w there same kept =
      recorded-Shows s w none now bs holds counted outside kept
  amend_or_new-Shows (some pc) s holds counted outside w there same kept =
      elim (Bool-cases pc.amend) [
        | inl q ↦
            subst (λ out. Shows out.1 bs) (sym (amend_or_new-amend pc info now s q there))
              (amend-Shows pc info now s bs holds counted outside w same kept)
        | inr q ↦
            subst (λ out. Shows out.1 bs) (sym (amend_or_new-new (some pc) now s q))
              (recorded-Shows s w (some pc) now bs holds counted outside kept)
      ]

  pub record_mutation-Shows :
      (s : State)
      → Holds s.heap s.root bs
      → Counts s bs
      → s.transaction ≡ none
      → WellFormed s
      → s.revision_info s.heap.current_fork s.heap.current_revision ≡ some info
      → info.revision ≡ s.heap.current_revision
      → IsKept s
      → Shows (record_mutation now s).1 bs
  record_mutation-Shows s holds counted outside w there same kept =
      subst (λ out. Shows out.1 bs) (sym (record_mutation-outside now s outside))
        (amend_or_new-Shows s.coalesce_pending (consumed s) holds counted outside
          (consumed-WellFormed s w) there same kept)
