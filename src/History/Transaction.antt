-- ===== src/History/Transaction.antt =====
-- Transactions (garland.go).
pub mod Nested
pub mod Empty
pub mod Inside
use garland.Base.{
  ℕ, ◌+◌, ◌-◌, Bool, true, false, not, ◌&&◌, ◌||◌, ltb, leb, ◌==◌, if◌then◌else◌, Option, none,
  some, List, [],
}
use garland.Result.{Error, Result, ok, err, no_transaction, transaction_poisoned}
use garland.Heap.{Heap}
use garland.Coalesce.{bake}
use garland.History.{State, TransactionState, ChangeResult, enter_revision, update_counts_from_root}

-- TransactionStart
unfoldable pub transaction_start : List ℕ → State → State
transaction_start name s = elim s.transaction [
  | some t ↦ record s { transaction = some (record t { depth = t.depth + 1 }) }
  | none ↦ record s {
    coalesce = bake s.coalesce;
    transaction = some (record {
      depth = 1;
      name = name;
      poisoned = false;
      pre_transaction_root = s.root;
      pre_transaction_fork = s.heap.current_fork;
      pre_transaction_rev = s.heap.current_revision;
      pending_revision = s.heap.current_revision + 1;
      has_mutations = false;
    });
  }
]

-- rollbackToPreTransaction
unfoldable pub rollback_to_pre_transaction : TransactionState → State → State
unfolding update_counts_from_root
rollback_to_pre_transaction t s = update_counts_from_root (record s {
  heap = record s.heap {
    pending_updates = [];
    current_fork = t.pre_transaction_fork;
    current_revision = t.pre_transaction_rev;
  };
  root = t.pre_transaction_root;
})

abbrev changed : State → ChangeResult
changed s = record { fork = s.heap.current_fork; revision = s.heap.current_revision }

-- The outermost commit of a transaction that was not rolled back inside.
unfoldable pub commit_revision : TransactionState → State → Result ChangeResult × State
unfolding enter_revision
commit_revision t s =
    let s' : State = enter_revision t.pending_revision t.name t.has_mutations s in
    (ok (changed s'), record s' { transaction = none })

-- The commit that takes the depth to zero.
unfoldable pub commit_outermost : TransactionState → State → Result ChangeResult × State
unfolding commit_revision rollback_to_pre_transaction
commit_outermost t s =
    if t.poisoned
    then (err transaction_poisoned, record (rollback_to_pre_transaction t s) { transaction = none })
    else commit_revision t s

-- A commit with the transaction open: whether other levels stay open.
abbrev pub commit_level : Bool → TransactionState → State → Result ChangeResult × State
commit_level true t s =
    (ok (changed s), record s { transaction = some (record t { depth = t.depth - 1 }) })
commit_level false t s = commit_outermost t s

-- TransactionCommit
unfoldable pub transaction_commit : State → Result ChangeResult × State
unfolding commit_outermost
transaction_commit s = elim s.transaction [
  | none ↦ (err no_transaction, s)
  | some t ↦ commit_level (ltb 0 (t.depth - 1)) t s
]

abbrev nothing : Result Bool
nothing = ok true

-- A rollback with the transaction open: whether it is the outermost level.
abbrev pub rollback_level : Bool → TransactionState → State → Result Bool × State
rollback_level true t s = (nothing, record (rollback_to_pre_transaction t s) { transaction = none })
rollback_level false t s =
    (nothing, record s { transaction = some (record t { poisoned = true; depth = t.depth - 1 }) })

-- TransactionRollback; its success carries nothing.
unfoldable pub transaction_rollback : State → Result Bool × State
unfolding rollback_to_pre_transaction
transaction_rollback s = elim s.transaction [
  | none ↦ (err no_transaction, s)
  | some t ↦ rollback_level ((t.depth - 1) == 0) t s
]
