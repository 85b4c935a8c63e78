-- ===== src/Edit/Undo.antt =====
-- Undoing an edit: the text that the document showed before comes back.
use garland.Base.{ℕ, ◌≤◌, ◌≡◌, sym, ap, ◌∙◌, subst, false, List, length}
use garland.Result.{Result, ok}
use garland.Heap.Represents.{byte_count-root_snapshot, Here-Grows}
use garland.History.{State, record_mutation, update_counts_from_root}
use garland.History.Fork.{WellFormed}
use garland.History.Mutation.{
  amends, consumed, consumed-WellFormed, record_mutation-new, undo_seek-record_mutation,
}
use garland.History.Seek.{undo_seek}
use garland.History.Undo.{Lands, Filed}
use garland.History.Shows.{Holds, Shows}
use garland.History.Shows.Record.{rooted, recorded-Back}
use garland.Edit.Holds.{Retreed, Holds-view}
use garland.Edit.Shows.{recounted, WellFormed-retreed}

-- UndoSeek succeeded, and the document shows this text again, with its size.
pub record Undone (out : Result State) (bs : List ℕ) : Type 0 where
  pub after : State
  pub succeeds : out ≡ ok after
  pub holds : Holds after.heap after.root bs
  pub counted : after.total_bytes ≡ length bs

counted-root :
    (s : State) (bs : List ℕ)
    → Holds s.heap s.root bs
    → (update_counts_from_root s).total_bytes ≡ length bs
unfolding update_counts_from_root
counted-root s bs p = rw (Holds-view p) (byte_count-root_snapshot p.rope ∙ ap length p.same_text)

lands-Undone :
    (from : State) (out : Result State) (root rev : ℕ) (bs : List ℕ)
    → Lands from out root rev
    → Holds (record from.heap { current_revision = rev }) root bs
    → Undone out bs
lands-Undone from out root rev bs l p =
    let holds : Holds l.after.heap l.after.root bs =
      subst (λ h. Holds h l.after.root bs) (sym l.same_heap)
        (subst (λ r. Holds (record from.heap { current_revision = rev }) r bs) (sym l.same_root)
          p) in
    record {
      after = l.after;
      succeeds = l.succeeds;
      holds = holds;
      counted = sym l.recounted ∙ counted-root l.after bs holds;
    }

module _ (s s' : State) (a b c now : ℕ) (r : Retreed s s') (bs bs' : List ℕ) (p : Shows s bs)
    (q : Holds s'.heap s'.root bs') (new : amends s'.coalesce_pending ≡ false) where
  edited : State
  edited = recounted a b c s'

  before : State
  before = record (recounted a b c s') { root = s.root }

  before-Holds : Holds before.heap before.root bs
  unfolding before
  before-Holds = record {
    rope = p.holds.rope;
    valid = q.valid;
    sound = q.sound;
    here = Here-Grows r.grows s.root p.holds.rope p.holds.here;
    same_text = p.holds.same_text;
  }

  before-Filed : Filed before
  unfolding before
  before-Filed =
      let x = rooted s'.heap s.root bs before-Holds in
      record {
        info = p.filed.info;
        filed =
            ap (λ infos. infos s'.heap.current_fork s'.heap.current_revision) r.same_infos
            ∙ ap (λ f. s.revision_info f s'.heap.current_revision) r.grows.same_fork
            ∙ ap (s.revision_info s.heap.current_fork) r.grows.same_revision
            ∙ p.filed.filed;
        same_revision = p.filed.same_revision ∙ sym r.grows.same_revision;
        same_root = p.filed.same_root;
        has_root = p.filed.has_root;
        node = x.node;
        registered = ap s'.heap.node_registry p.filed.same_root ∙ x.registered;
      }

  before-WellFormed : WellFormed before
  unfolding before
  before-WellFormed =
      let w = WellFormed-retreed s s' a b c r p.well_formed in
      record { known = w.known; numbered = w.numbered; current = w.current }

  before-kept : before-WellFormed.current.info.pruned_up_to ≤ before.heap.current_revision
  unfolding before
  before-kept =
      let info = before-WellFormed.current.info in
      subst (info.pruned_up_to ≤◌) (sym r.grows.same_revision) (
        p.kept info (
          sym (ap (λ forks. forks s.heap.current_fork) r.grows.same_forks)
          ∙ ap s'.heap.forks (sym r.grows.same_fork)
          ∙ before-WellFormed.current.exists))

  back-Holds :
      Holds
        (record (record_mutation now edited).1.heap { current_revision = s'.heap.current_revision })
        s.root
        bs
  unfolding edited before
  back-Holds =
      let w = WellFormed-retreed s s' a b c r p.well_formed in
      subst
        (λ out. Holds (record out.1.heap { current_revision = s'.heap.current_revision }) s.root bs)
        (sym (record_mutation-new now (recounted a b c s') (r.same_transaction ∙ p.outside) new))
        (recorded-Back (consumed (recounted a b c s')) (consumed-WellFormed (recounted a b c s') w)
          s'.coalesce_pending now s.root bs before-Holds)

  -- The revision before the edit shows the text that it showed.
  pub recorded-edit-Undone :
      Undone (undo_seek s.heap.current_revision (record_mutation now (recounted a b c s')).1) bs
  unfolding edited before
  recorded-edit-Undone =
      subst (λ n. Undone (undo_seek n (record_mutation now (recounted a b c s')).1) bs)
        r.grows.same_revision
        (lands-Undone (record_mutation now (recounted a b c s')).1 _ s.root s'.heap.current_revision
          bs
          (undo_seek-record_mutation before s'.root now before-WellFormed before-Filed
            (r.same_transaction ∙ p.outside) new before-kept)
          back-Holds)
