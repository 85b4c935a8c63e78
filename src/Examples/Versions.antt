-- ===== src/Examples/Versions.antt =====
-- A document with an edit and an undo behind it, and the theorems on its versions.
use garland.Base.{
  ℕ, zero, suc, ◌+◌, ◌≤◌, ◌≡◌, refl, true, false, ◌&&◌, leb, ◌==◌, if◌then◌else◌, [], ◌∷◌, Option,
  none, some, arith, Bool-cases, inl, inr, leb→le, ==→eq, and-left, and-right,
}
use garland.Node.{ForkInfo, create_leaf_snapshot, snapshot_at, set_snapshot}
use garland.Node.Versions.{snapshot_at-set_snapshot_self}
use garland.Heap.{new_node}
use garland.Coalesce.{
  CoalesceState, coalesce_insert, coalesce_overwrite, coalesce_decide, coalesce_extend_run,
  run_is_open, adjacent,
}
use garland.Coalesce.Overtype.{overtype-one_way}
use garland.History.{place, State, RevisionInfo, record_mutation}
use garland.History.Fork.{Reached, WellFormed}
use garland.History.Mutation.{
  undo_seek-record_mutation, record_mutation-keeps, record_mutation-WellFormed,
}
use garland.History.Seek.{undo_seek}
use garland.History.Undo.{Lands, Filed, with_root}
use garland.History.Transaction.{transaction_start, transaction_commit}
use garland.History.Transaction.Nested.{close_all}
use garland.History.Transaction.Inside.{
  Inside, started, begun, edited, Committed, close_all-Committed,
}
use garland.History.Transaction.Empty.{committed, empty_transaction-overwrites}
use garland.Examples.{first_fork, only_first, no_heap}

abbrev info_of : ℕ → RevisionInfo
info_of r = record {
  revision = r;
  name = [];
  has_changes = true;
  root_id = r + 1;
  stream_known_bytes = none;
}

-- Revisions 0 and 1 of the first fork.
abbrev two_revisions : ℕ → ℕ → Option RevisionInfo
two_revisions f r = if (f == 0) && leb r 1 then some (info_of r) else none

-- A run of typing is open at revision 1.
abbrev run : CoalesceState
run = record {
  enabled = true;
  auto_bake = 0;
  active = true;
  fork = 0;
  rev = 1;
  kind = coalesce_insert;
  first = 0;
  last = 3;
  last_op = 0;
}

-- The document at one of its revisions.
abbrev document : ℕ → State
document r = record {
  heap = record no_heap { current_revision = r; node_registry = λ _. some new_node };
  root = r + 1;
  next_fork_id = 0;
  revision_info = two_revisions;
  total_bytes = 0;
  total_runes = 0;
  total_lines = 0;
  stream_known = none;
  transaction = none;
  coalesce = run;
  coalesce_pending = none;
}

abbrev old : State
old = document 0

abbrev newest : State
newest = document 1

known_revisions : (f r : ℕ) (i : RevisionInfo) → two_revisions f r ≡ some i → Reached only_first f r
known_revisions f r i e = elim (Bool-cases ((f == 0) && leb r 1)) [
  | inl q ↦
      let f_is : f ≡ 0 = ==→eq f 0 (and-left _ _ q) in
      rw f_is (record { info = first_fork; exists = refl; reached = leb→le r 1 (and-right _ _ q) })
  | inr q ↦ absurd (cc (rw q at e))
]

known_forks : (f : ℕ) (i : ForkInfo) → only_first f ≡ some i → f ≤ 0
known_forks zero i e = omega arith
known_forks (suc f) i e = absurd cc

abbrev old-WellFormed : WellFormed old
old-WellFormed = record {
  known = known_revisions;
  numbered = known_forks;
  current = record { info = first_fork; exists = refl; reached = omega arith };
}

abbrev old-Filed : Filed old
old-Filed = record {
  info = info_of 0;
  filed = refl;
  same_revision = refl;
  same_root = refl;
  has_root = λ q. absurd (omega (arith, q));
  node = new_node;
  registered = refl;
}

undo_seek-record_mutation_example :
    Lands
      (record_mutation 5 (with_root 9 old)).1
      (undo_seek 0 (record_mutation 5 (with_root 9 old)).1)
      1
      0
undo_seek-record_mutation_example =
    undo_seek-record_mutation old 9 5 old-WellFormed old-Filed refl refl (omega arith)

record_mutation-WellFormed_example : WellFormed (record_mutation 5 old).1
record_mutation-WellFormed_example = record_mutation-WellFormed old 5 old-WellFormed refl refl

record_mutation-keeps_example : (record_mutation 5 old).1.revision_info 0 1 ≡ some (info_of 1)
record_mutation-keeps_example =
    record_mutation-keeps old 5 0 1 (info_of 1) old-WellFormed refl refl refl

-- A transaction at the old revision with an edit, an inner level, and another edit.
abbrev first_edit : State
first_edit = record (transaction_start (110 ∷ []) old) { root = 9 }

abbrev second_edit : State
second_edit = record (transaction_start [] (record_mutation 5 first_edit).1) { root = 11 }

old-Inside : Inside old (110 ∷ []) 1 true (record_mutation 6 second_edit).1
old-Inside =
    edited second_edit 6
      (begun [] (
        edited first_edit 5 started
          (record { same_transaction = refl; same_revision = refl; same_infos = refl })))
      (record { same_transaction = refl; same_revision = refl; same_infos = refl })

close_all-Committed_example :
    Committed old
      (110 ∷ [])
      true
      (record_mutation 6 second_edit).1
      (close_all (false ∷ false ∷ []) (record_mutation 6 second_edit).1)
close_all-Committed_example =
    close_all-Committed old (110 ∷ []) false (false ∷ []) refl old-Inside refl refl

empty_transaction-overwrites_example :
    (transaction_commit (transaction_start (110 ∷ []) old)).1.revision_info 0 (0 + 1)
    ≡ some (committed old (110 ∷ []))
empty_transaction-overwrites_example = empty_transaction-overwrites old (110 ∷ []) refl

snapshot_at-set_snapshot_self_example :
    snapshot_at only_first (set_snapshot 0 1 (create_leaf_snapshot (97 ∷ []) [] none) new_node) 0 1
    ≡ some (create_leaf_snapshot (97 ∷ []) [] none)
snapshot_at-set_snapshot_self_example =
    snapshot_at-set_snapshot_self only_first new_node 0 1 (create_leaf_snapshot (97 ∷ []) [] none)

-- A run of overwriting at the newest revision, and an insertion at its end.
abbrev overwriting : CoalesceState
overwriting = record run { kind = coalesce_overwrite }

insertion_amends :
    (coalesce_decide overwriting (place newest) coalesce_insert 3 1 5).0
    ≡ some (record { amend = true; kind = coalesce_insert; pos = 3; length = 1 })
unfolding coalesce_decide run_is_open adjacent
insertion_amends = refl

overtype-one_way_example :
    (coalesce_decide
      (coalesce_extend_run overwriting
        (record { amend = true; kind = coalesce_insert; pos = 3; length = 1 })
        5)
      (place newest)
      coalesce_overwrite
      4
      1
      6).1
    ≡ false
overtype-one_way_example =
    overtype-one_way overwriting (place newest) (place newest) 3 1 5 4 1 6
      (record { amend = true; kind = coalesce_insert; pos = 3; length = 1 }) insertion_amends
