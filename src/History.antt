-- ===== src/History.antt =====
-- The versions of a document (garland.go): revisions, forks and transactions. The state is the
-- fields of Garland that these operations read and write, but for the cursors, the optimized
-- regions (none is open), the cache of decorations and the locks of the source file.
pub mod Fork
pub mod Seek
pub mod Transaction
pub mod Undo
pub mod Mutation
pub mod Shows
pub mod Prune
use garland.Base.{
  ℕ, ◌+◌, ◌-◌, Bool, true, false, not, ◌&&◌, ◌||◌, ltb, leb, ◌==◌, if◌then◌else◌, Option, none,
  some, List, [],
}
use garland.Node.{ForkInfo, Snapshot}
use garland.Heap.{Heap, update, current}
use garland.Coalesce.{
  CoalesceState, CoalescePending, coalesce_start_run, coalesce_extend_run, Place, bake,
}

-- RevisionInfo; `none` for the bytes known of a stream is the -1 of a complete one.
pub record RevisionInfo : Type 0 where
  pub revision : ℕ
  pub name : List ℕ
  pub has_changes : Bool
  pub root_id : ℕ
  pub stream_known_bytes : Option ℕ

-- TransactionState
pub record TransactionState : Type 0 where
  pub depth : ℕ
  pub name : List ℕ
  pub poisoned : Bool
  pub pre_transaction_root : ℕ
  pub pre_transaction_fork : ℕ
  pub pre_transaction_rev : ℕ
  pub pending_revision : ℕ
  pub has_mutations : Bool

-- The fields of Garland; `heap` has those of the tree and the current fork and revision.
pub record State : Type 0 where
  pub heap : Heap
  pub root : ℕ
  pub next_fork_id : ℕ
  pub revision_info : ℕ → ℕ → Option RevisionInfo
  pub total_bytes : ℕ
  pub total_runes : ℕ
  pub total_lines : ℕ
  pub stream_known : Option ℕ
  pub transaction : Option TransactionState
  pub coalesce : CoalesceState
  pub coalesce_pending : Option CoalescePending

-- ChangeResult
pub record ChangeResult : Type 0 where
  pub fork : ℕ
  pub revision : ℕ

abbrev pub update_info :
    (ℕ → ℕ → Option RevisionInfo) → ℕ → ℕ → Option RevisionInfo → ℕ → ℕ → Option RevisionInfo
update_info infos fork rev info f r = if (f == fork) && (r == rev) then info else infos f r

abbrev pub in_transaction : State → Bool
in_transaction s = elim s.transaction [ none ↦ false | some t ↦ true ]

abbrev at_head_of : Option ForkInfo → ℕ → Bool
at_head_of none rev = true
at_head_of (some info) rev = leb info.highest_revision rev

-- isAtHead
abbrev pub is_at_head : State → Bool
is_at_head s = at_head_of (s.heap.forks s.heap.current_fork) s.heap.current_revision

abbrev pub place : State → Place
place s = record {
  in_transaction = in_transaction s;
  fork = s.heap.current_fork;
  revision = s.heap.current_revision;
  at_head = is_at_head s;
}

abbrev pub counted : State → Option Snapshot → State
counted s none = s
counted s (some snap) = record s {
  total_bytes = snap.byte_count;
  total_runes = snap.rune_count;
  total_lines = snap.line_count;
}

-- updateCountsFromRoot
unfoldable pub update_counts_from_root : State → State
update_counts_from_root s = counted s (current s.heap s.root)

-- The fork that branches from the current revision.
abbrev pub new_fork : State → ForkInfo
new_fork s = record {
  id = s.next_fork_id + 1;
  parent_fork = s.heap.current_fork;
  parent_revision = s.heap.current_revision;
  highest_revision = s.heap.current_revision;
  pruned_up_to = 0;
  deleted = false;
}

-- createForkFromCurrent
unfoldable pub create_fork_from_current : State → State
create_fork_from_current s = record s {
  next_fork_id = s.next_fork_id + 1;
  heap = record s.heap {
    forks = update s.heap.forks (s.next_fork_id + 1) (some (new_fork s));
    current_fork = s.next_fork_id + 1;
  };
}

-- A fork whose highest revision is at least this one.
abbrev pub raise : Option ForkInfo → ℕ → Option ForkInfo
raise none rev = none
raise (some info) rev =
    if ltb info.highest_revision rev
    then some (record info { highest_revision = rev })
    else some info

-- The current revision becomes this one, with its fork's highest and its information.
unfoldable pub enter_revision : ℕ → List ℕ → Bool → State → State
enter_revision rev name has_changes s = record s {
  heap = record s.heap {
    current_revision = rev;
    forks = update s.heap.forks s.heap.current_fork (raise (s.heap.forks s.heap.current_fork) rev);
    pending_updates = [];
  };
  revision_info = update_info s.revision_info s.heap.current_fork rev (
      some (record {
        revision = rev;
        name = name;
        has_changes = has_changes;
        root_id = s.root;
        stream_known_bytes = s.stream_known;
      }));
}

abbrev here : State → ChangeResult
here s = record { fork = s.heap.current_fork; revision = s.heap.current_revision }

abbrev pub fork_unless_at_head : State → State
fork_unless_at_head s = if is_at_head s then s else create_fork_from_current s

-- recordMutation inside a transaction
unfoldable pub record_in_transaction : TransactionState → State → ChangeResult × State
unfolding create_fork_from_current
record_in_transaction t s =
    let forks_now : Bool = not (is_at_head s) && not t.has_mutations in
    let s' : State = if forks_now then create_fork_from_current s else s in
    let pending : ℕ = if forks_now then s'.heap.current_revision + 1 else t.pending_revision in
    (
      record { fork = s'.heap.current_fork; revision = pending },
      record s' {
        coalesce = bake s.coalesce;
        transaction = some (record t { pending_revision = pending; has_mutations = true });
      },
    )

abbrev after_new_revision : Option CoalescePending → State → ℕ → CoalesceState
after_new_revision none s now = bake s.coalesce
after_new_revision (some pc) s now =
    if s.coalesce.enabled
    then coalesce_start_run s.coalesce s.heap.current_fork s.heap.current_revision pc now
    else bake s.coalesce

-- recordMutation, the case of a new revision
unfoldable pub record_new_revision : Option CoalescePending → ℕ → State → ChangeResult × State
unfolding create_fork_from_current enter_revision
record_new_revision pc now s =
    let s' : State = fork_unless_at_head s in
    let s'' : State = enter_revision (s'.heap.current_revision + 1) [] true s' in
    (here s'', record s'' { coalesce = after_new_revision pc s'' now })

-- recordMutation, the case of an edit that continues a run
unfoldable pub record_amend : CoalescePending → RevisionInfo → ℕ → State → ChangeResult × State
record_amend pc info now s = (
  here s,
  record s {
    heap = record s.heap { pending_updates = [] };
    revision_info =
        update_info s.revision_info s.heap.current_fork s.heap.current_revision
          (some (record info { root_id = s.root; stream_known_bytes = s.stream_known }));
    coalesce = coalesce_extend_run s.coalesce pc now;
  },
)

abbrev pub amend_or_new : Option CoalescePending → ℕ → State → ChangeResult × State
amend_or_new none now s = record_new_revision none now s
amend_or_new (some pc) now s =
    if pc.amend
    then elim (s.revision_info s.heap.current_fork s.heap.current_revision) [
      | some info ↦ record_amend pc info now s
      | none ↦ record_new_revision (some pc) now s
    ]
    else record_new_revision (some pc) now s

-- recordMutation
unfoldable pub record_mutation : ℕ → State → ChangeResult × State
unfolding record_in_transaction record_new_revision record_amend
record_mutation now s =
    let s' : State = record s { coalesce_pending = none } in
    elim s.transaction [
      | some t ↦ record_in_transaction t s'
      | none ↦ amend_or_new s.coalesce_pending now s'
    ]
