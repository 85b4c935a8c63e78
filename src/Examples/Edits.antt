-- ===== src/Examples/Edits.antt =====
-- Witnesses for the editing entry points: a document of one leaf, not at its newest revision.
use garland.Base.{
  ◌+◌, ℕ, zero, suc, ◌≡◌, ◌≤◌, refl, sym, ap, true, false, ◌&&◌, ◌==◌, if◌then◌else◌, List, [], ◌∷◌,
  Option, none, some, arith, Bool-cases, inl, inr, ==→eq, and-left, and-right,
}
use garland.Result.{ok}
use garland.Address.{RelativeDecoration}
use garland.Node.{ForkInfo, create_leaf_snapshot, set_snapshot}
use garland.Heap.{Heap, add_leaf, add_node, put_snapshot, new_node}
use garland.Heap.Fresh.{add_node-Valid, current-add_node}
use garland.Heap.Represents.{root_snapshot, Here}
use garland.Heap.Sound.{Sound, view-Sits}
use garland.Heap.Sound.Steps.{add_leaf-Sound}
use garland.Coalesce.{CoalesceState, coalesce_insert, coalesce_decide}
use garland.Cursor.{new_cursor}
use garland.Rope.Insert.{insert_internal}
use garland.Rope.Sound.Insert.{insert_internal-Sound}
use garland.Rope.Delete.{delete_range}
use garland.Rope.Sound.Delete.{delete_range-Sound}
use garland.Rope.Read.{read_bytes_range_internal}
use garland.Rope.Read.Text.{read_bytes_range_internal-text}
use garland.Rope.Mark.{has_key, add_decoration_internal}
use garland.Rope.Mark.Add.{Placed, add_decoration_internal-Placed}
use garland.Utf8.{rune_count}
use garland.History.{State, RevisionInfo}
use garland.History.Fork.{WellFormed, Reached}
use garland.History.Seek.{undo_seek}
use garland.History.Undo.{Filed}
use garland.History.Shows.{Holds, Shows}
use garland.Edit.{Document, insert_bytes_at}
use garland.Edit.Shows.{Edits, insert_bytes_at-Edits}
use garland.Edit.Undo.{Undone}
use garland.Edit.Undone.{insert_bytes_at-Undone}
use garland.Examples.{first_fork, only_first, no_heap, no_heap-Valid, first_bytes, mark, first_leaf}

abbrev leaf_heap : Heap
leaf_heap = (add_leaf first_bytes (mark ∷ []) none no_heap).1

no_heap-Sound : Sound no_heap
no_heap-Sound = record {
  positive = λ id n e. absurd cc;
  bounded = λ id n e. absurd cc;
  sits = λ id n e. absurd cc;
  filed = λ l r id e. absurd cc;
}

leaf_heap-Sound : Sound leaf_heap
leaf_heap-Sound =
    add_leaf-Sound no_heap first_bytes (mark ∷ []) none no_heap-Sound (omega arith, tt)

leaf_here : Here leaf_heap 1 first_leaf
unfolding root_snapshot
leaf_here = current-add_node no_heap-Valid (create_leaf_snapshot first_bytes (mark ∷ []) none)

leaf_heap-Holds : Holds leaf_heap 1 first_bytes
leaf_heap-Holds = record {
  rope = first_leaf;
  valid = add_node-Valid no_heap-Valid (create_leaf_snapshot first_bytes (mark ∷ []) none);
  sound = leaf_heap-Sound;
  here = leaf_here;
  same_text = refl;
}

abbrev first_info : RevisionInfo
first_info = record {
  revision = 0;
  name = [];
  has_changes = true;
  root_id = 1;
  stream_known_bytes = none;
}

abbrev one_revision : ℕ → ℕ → Option RevisionInfo
one_revision f r = if (f == 0) && (r == 0) then some first_info else none

abbrev no_run : CoalesceState
no_run = record {
  enabled = true;
  auto_bake = 0;
  active = false;
  fork = 0;
  rev = 0;
  kind = coalesce_insert;
  first = 0;
  last = 0;
  last_op = 0;
}

abbrev pub leaf_state : State
leaf_state = record {
  heap = leaf_heap;
  root = 1;
  next_fork_id = 0;
  revision_info = one_revision;
  total_bytes = 4;
  total_runes = 3;
  total_lines = 1;
  stream_known = none;
  transaction = none;
  coalesce = no_run;
  coalesce_pending = none;
}

same_forks : leaf_heap.forks ≡ only_first
unfolding add_node put_snapshot
same_forks = refl

known_revision :
    (f r : ℕ) (i : RevisionInfo) → one_revision f r ≡ some i → Reached leaf_heap.forks f r
unfolding add_node put_snapshot
known_revision f r i e = elim (Bool-cases ((f == 0) && (r == 0))) [
  | inl q ↦
      let f_is : f ≡ 0 = ==→eq f 0 (and-left _ (r == 0) q) in
      let r_is : r ≡ 0 = ==→eq r 0 (and-right (f == 0) _ q) in
      rw (f_is, r_is) (record { info = first_fork; exists = refl; reached = omega arith })
  | inr q ↦ absurd (cc (rw q at e))
]

known_fork : (f : ℕ) (i : ForkInfo) → leaf_heap.forks f ≡ some i → f ≤ 0
unfolding add_node put_snapshot
known_fork zero i e = omega arith
known_fork (suc f) i e = absurd cc

leaf_state-WellFormed : WellFormed leaf_state
unfolding add_node put_snapshot
leaf_state-WellFormed = record {
  known = known_revision;
  numbered = known_fork;
  current = record { info = first_fork; exists = refl; reached = omega arith };
}

leaf_state-Filed : Filed leaf_state
unfolding add_node put_snapshot
leaf_state-Filed = record {
  info = first_info;
  filed = refl;
  same_revision = refl;
  same_root = refl;
  has_root = λ q. absurd (omega (arith, q));
  node = set_snapshot 0 0 (create_leaf_snapshot first_bytes (mark ∷ []) none) new_node;
  registered = refl;
}

pruned_zero : (f : ForkInfo) → only_first 0 ≡ some f → f.pruned_up_to ≤ 0
pruned_zero f e =
    let same : first_fork ≡ f = cc e in
    let zero_is : f.pruned_up_to ≡ 0 = sym (ap (λ (x : ForkInfo). x.pruned_up_to) same) in
    omega arith

pub leaf_state-Shows : Shows leaf_state first_bytes
unfolding add_node put_snapshot
leaf_state-Shows = record {
  holds = leaf_heap-Holds;
  counted = (refl, refl);
  outside = refl;
  well_formed = leaf_state-WellFormed;
  filed = leaf_state-Filed;
  kept = pruned_zero;
}

abbrev pub leaf_document : Document
leaf_document = record { state = leaf_state; cursors = new_cursor 7 0 0 true ∷ [] }

abbrev pub new_marks : List RelativeDecoration
new_marks = record { key = 110 ∷ []; position = 2 } ∷ []

abbrev pub new_bytes : List ℕ
new_bytes = 120 ∷ 10 ∷ []

insert_bytes_at-Edits_example :
    Edits
      (insert_bytes_at 7 2 new_bytes new_marks true 5 leaf_document)
      (0xC3 ∷ 0xA9 ∷ 120 ∷ 10 ∷ 10 ∷ 97 ∷ [])
      (3 + rune_count new_bytes)
insert_bytes_at-Edits_example =
    insert_bytes_at-Edits 7 2 new_bytes new_marks true 5 leaf_document first_bytes leaf_state-Shows
      (omega arith)

insert_bytes_at-Undone_example :
    Undone
      (undo_seek 0 (insert_bytes_at 7 2 new_bytes new_marks true 5 leaf_document).1.state)
      first_bytes
unfolding add_node put_snapshot coalesce_decide
insert_bytes_at-Undone_example =
    insert_bytes_at-Undone 7 2 new_bytes new_marks true 5 leaf_document first_bytes leaf_state-Shows
      (omega arith) refl refl

read_bytes_range_internal-text_example :
    read_bytes_range_internal leaf_heap 2 1 1 2 ≡ ok (0xA9 ∷ 10 ∷ [])
read_bytes_range_internal-text_example =
    read_bytes_range_internal-text leaf_heap 2 1 first_leaf leaf_here (omega arith) 1 2

add_decoration_internal-Placed_example :
    Placed leaf_heap
      (add_decoration_internal 2 1 (110 ∷ []) 2 leaf_heap)
      first_leaf
      (record { key = 110 ∷ []; position = 2 })
unfolding has_key
add_decoration_internal-Placed_example =
    add_decoration_internal-Placed 2 leaf_heap 1 first_leaf (110 ∷ []) 2 leaf_heap-Holds.valid
      leaf_here (omega arith, tt) (omega arith) (omega arith) refl

insert_internal-Sound_example :
    Sound (insert_internal 2 (root_snapshot first_leaf) 2 0 new_bytes new_marks true leaf_heap).1
unfolding add_node put_snapshot
insert_internal-Sound_example =
    insert_internal-Sound new_bytes new_marks true (omega arith, tt) 2 leaf_heap 1
      (root_snapshot first_leaf) 2 0 leaf_heap-Sound
      (view-Sits leaf_heap-Sound 0 0 1 (root_snapshot first_leaf) leaf_here).0

delete_range-Sound_example : Sound (delete_range 2 1 1 2 leaf_heap).1
delete_range-Sound_example = delete_range-Sound 2 leaf_heap 1 1 2 leaf_heap-Sound
