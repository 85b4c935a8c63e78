-- ===== src/Edit/Undone.antt =====
-- insertBytesAt and deleteBytesAt, and UndoSeek behind them.
use garland.Base.{
  ℕ, ◌≤◌, ◌≡◌, sym, ap, ◌∙◌, subst, Bool, false, ◌&&◌, List, length, ltb, ◌==◌, Option, none, arith,
  ge→ltb, inl, inr, Bool-cases,
}
use garland.Address.{RelativeDecoration}
use garland.Coalesce.{CoalesceKind, coalesce_insert, CoalescePending, coalesce_decide}
use garland.History.{
  State, place, is_at_head, record_mutation, record_new_revision, enter_revision,
  create_fork_from_current,
}
use garland.History.Mutation.{amends, consumed, record_mutation-new}
use garland.History.Seek.{undo_seek}
use garland.History.Shows.{Shows}
use garland.Edit.{
  Document, decide, cleared, recorded, counted_in, insert_rest, insert_decided, insert_bytes_at,
}
use garland.Edit.Holds.{insert_tree-Inserts, spliced}
use garland.Edit.Shows.{pending, decide-state, decide-Shows}
use garland.Edit.Undo.{Undone, recorded-edit-Undone}

-- A recorded edit has used the decision up.
new_revision-pending :
    (pc : Option CoalescePending) (now : ℕ) (s : State)
    → (record_new_revision pc now s).1.coalesce_pending ≡ s.coalesce_pending
unfolding record_new_revision enter_revision create_fork_from_current
new_revision-pending pc now s = elim (Bool-cases (is_at_head s)) [ inl q ↦ rw q | inr q ↦ rw q ]

pub cleared-record_mutation :
    (now : ℕ) (s : State)
    → s.transaction ≡ none
    → amends s.coalesce_pending ≡ false
    → pending none (record_mutation now s).1 ≡ (record_mutation now s).1
cleared-record_mutation now s outside new =
    subst (λ out. pending none out.1 ≡ out.1) (sym (record_mutation-new now s outside new))
      (ap (λ pc. pending pc (record_new_revision s.coalesce_pending now (consumed s)).1)
        (sym (new_revision-pending s.coalesce_pending now (consumed s))))

-- The decision that an edit waits with.
abbrev pub verdict : CoalesceKind → ℕ → ℕ → ℕ → Document → Option CoalescePending
verdict kind pos len now d = (coalesce_decide d.state.coalesce (place d.state) kind pos len now).0

-- Outside a transaction, when insertBytesAt has put something in at a position up to the end of the
-- text, and the edit does not go on a run, UndoSeek to the revision that was current succeeds, and
-- the document shows the text that it showed, with its size.
pub insert_bytes_at-Undone :
    (actor pos : ℕ) (bytes : List ℕ) (decs : List RelativeDecoration) (insert_before : Bool)
    (now : ℕ) (d : Document) (bs : List ℕ)
    → Shows d.state bs
    → pos ≤ length bs
    → ((length bytes == 0) && (length decs == 0)) ≡ false
    → amends (verdict coalesce_insert pos (length bytes) now d) ≡ false
    → Undone
        (undo_seek d.state.heap.current_revision
          (insert_bytes_at actor pos bytes decs insert_before now d).1.state)
        bs
unfolding insert_bytes_at insert_decided recorded
insert_bytes_at-Undone actor pos bytes decs insert_before now d bs p le some_part new =
    let inside : ltb d.state.total_bytes pos ≡ false = ge→ltb _ _ (omega (arith, p.counted.0)) in
    let d' : Document = decide coalesce_insert pos (length bytes) now d in
    let state = decide-state coalesce_insert pos (length bytes) now d in
    let p' = decide-Shows coalesce_insert pos (length bytes) now d bs p in
    let done = insert_tree-Inserts pos bytes decs insert_before d'.state bs p'.holds le in
    let r = done.edited.retreed in
    let waits : amends done.after.coalesce_pending ≡ false =
      ap amends (r.same_pending ∙ ap (λ (s : State). s.coalesce_pending) state) ∙ new in
    let outside = r.same_transaction ∙ p'.outside in
    let result : State = (record_mutation now (counted_in bytes done.after)).1 in
    let undone : Undone (undo_seek d'.state.heap.current_revision result) bs =
      recorded-edit-Undone d'.state done.after _ _ _ now r bs (spliced pos bytes bs) p'
        done.edited.holds waits in
    rw (some_part, inside)
      (subst
        (λ o.
          Undone
            (undo_seek d.state.heap.current_revision
              (cleared (insert_rest actor pos bytes insert_before now o d').1).state)
            bs)
        (sym done.returns)
        (subst (λ s. Undone (undo_seek d.state.heap.current_revision s) bs)
          (sym (cleared-record_mutation now (counted_in bytes done.after) outside waits))
          (subst (λ n. Undone (undo_seek n result) bs)
            (ap (λ (s : State). s.heap.current_revision) state) undone)))
