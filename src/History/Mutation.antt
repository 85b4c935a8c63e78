-- ===== src/History/Mutation.antt =====
-- recordMutation as a whole, for an edit outside a transaction that does not go on a run.
use garland.Base.{ℕ, ◌≤◌, ◌≡◌, refl, sym, ap, ◌∙◌, subst, Bool, true, false, Option, none, some}
use garland.Coalesce.{CoalescePending, coalesce_extend_run}
use garland.History.{
  State, RevisionInfo, record_mutation, record_new_revision, record_amend, amend_or_new,
}
use garland.History.Fork.{WellFormed}
use garland.History.Fork.Record.{record_new_revision-WellFormed, record_new_revision-keeps}
use garland.History.Seek.{undo_seek}
use garland.History.Undo.{Lands, Filed, with_root, undo_seek-record_new_revision}

-- Does the decision that waits amend the current revision?
abbrev pub amends : Option CoalescePending → Bool
amends none = false
amends (some pc) = pc.amend

-- The decision is consumed.
abbrev pub consumed : State → State
consumed s = record s { coalesce_pending = none }

pub amend_or_new-amend :
    (pc : CoalescePending) (info : RevisionInfo) (now : ℕ) (s : State)
    → pc.amend ≡ true
    → s.revision_info s.heap.current_fork s.heap.current_revision ≡ some info
    → amend_or_new (some pc) now s ≡ record_amend pc info now s
unfolding record_amend coalesce_extend_run
amend_or_new-amend pc info now s e there = rw (e, there)

pub amend_or_new-new :
    (pc : Option CoalescePending) (now : ℕ) (s : State)
    → amends pc ≡ false
    → amend_or_new pc now s ≡ record_new_revision pc now s
amend_or_new-new none now s e = refl
amend_or_new-new (some pc) now s e = rw e

pub record_mutation-outside :
    (now : ℕ) (s : State)
    → s.transaction ≡ none
    → record_mutation now s ≡ amend_or_new s.coalesce_pending now (consumed s)
unfolding record_mutation
record_mutation-outside now s e =
    rw (record_mutation, e)
      (ap (λ t. amend_or_new s.coalesce_pending now (record (consumed s) { transaction = t })) e)

pub record_mutation-new :
    (now : ℕ) (s : State)
    → s.transaction ≡ none
    → amends s.coalesce_pending ≡ false
    → record_mutation now s ≡ record_new_revision s.coalesce_pending now (consumed s)
record_mutation-new now s e new =
    record_mutation-outside now s e ∙ amend_or_new-new s.coalesce_pending now (consumed s) new

pub consumed-WellFormed : (s : State) → WellFormed s → WellFormed (consumed s)
consumed-WellFormed s w = record { known = w.known; numbered = w.numbered; current = w.current }

consumed-Filed : (s : State) → Filed s → Filed (consumed s)
consumed-Filed s i = record {
  info = i.info;
  filed = i.filed;
  same_revision = i.same_revision;
  same_root = i.same_root;
  has_root = i.has_root;
  node = i.node;
  registered = i.registered;
}

-- Outside a transaction, when recordMutation has recorded an edit that does not go on a run, in a
-- fork of its own or not, UndoSeek to the revision before it succeeds and brings back the root
-- that the document had, with its count of bytes and in the same registry, if that revision was filed
-- with its root and is not pruned.
pub undo_seek-record_mutation :
    (s : State) (root now : ℕ) (w : WellFormed s)
    → Filed s
    → s.transaction ≡ none
    → amends s.coalesce_pending ≡ false
    → w.current.info.pruned_up_to ≤ s.heap.current_revision
    → Lands
        (record_mutation now (with_root root s)).1
        (undo_seek s.heap.current_revision (record_mutation now (with_root root s)).1)
        s.root
        s.heap.current_revision
unfolding consumed-WellFormed
undo_seek-record_mutation s root now w i outside new pruned =
    subst
      (λ out. Lands out.1 (undo_seek s.heap.current_revision out.1) s.root s.heap.current_revision)
      (sym (record_mutation-new now (with_root root s) outside new))
      (undo_seek-record_new_revision (consumed s) root now s.coalesce_pending
        (consumed-WellFormed s w) (consumed-Filed s i) outside pruned)

-- Outside a transaction, an edit that does not go on a run overwrites no revision of any fork.
pub record_mutation-keeps :
    (s : State) (now f r : ℕ) (i : RevisionInfo)
    → WellFormed s
    → s.transaction ≡ none
    → amends s.coalesce_pending ≡ false
    → s.revision_info f r ≡ some i
    → (record_mutation now s).1.revision_info f r ≡ some i
record_mutation-keeps s now f r i w outside new e =
    subst (λ out. out.1.revision_info f r ≡ some i) (sym (record_mutation-new now s outside new))
      (record_new_revision-keeps (consumed s) s.coalesce_pending now f r i (consumed-WellFormed s w)
        e)

-- Outside a transaction, an edit that does not go on a run keeps the invariant of forks and
-- revisions.
pub record_mutation-WellFormed :
    (s : State) (now : ℕ)
    → WellFormed s
    → s.transaction ≡ none
    → amends s.coalesce_pending ≡ false
    → WellFormed (record_mutation now s).1
record_mutation-WellFormed s now w outside new =
    subst (λ out. WellFormed out.1) (sym (record_mutation-new now s outside new))
      (record_new_revision-WellFormed (consumed s) s.coalesce_pending now (consumed-WellFormed s w))
