-- ===== src/History/Prune.antt =====
-- Prune and DeleteFork (garland.go): what they drop of the revisions, of the cursors' positions and
-- of the nodes' snapshots. The maps that the source ranges over are gone through by number.
pub mod Reach
pub mod Pruned
pub mod Deleted
use garland.Base.{
  ℕ, zero, suc, ◌+◌, ◌-◌, Bool, true, false, not, ◌&&◌, ◌||◌, List, [], ◌∷◌, map, ltb, leb, ◌==◌,
  if◌then◌else◌, Option, none, some,
}
use garland.Result.{Result, ok, err, invalid_position, fork_not_found, revision_not_found}
use garland.Node.{ForkRevision, ForkInfo, Snapshot, Node, key_eq, snapshot_at_with_key}
use garland.Heap.{Heap, update}
use garland.Cursor.{Cursor, CursorPosition}
use garland.Edit.{Document}
use garland.History.{State, RevisionInfo}
use garland.History.Seek.{find_revision_info}

-- The smaller of the reach so far, if there is one, and a branch revision.
abbrev pub lower : Option ℕ → ℕ → ℕ
lower none rev = rev
lower (some reach) rev = if ltb rev reach then rev else reach

-- The walk of revisionNeededByOthers up from a fork. A fork is numbered above its parent, so one
-- round more than its number is enough.
unfoldable pub walk_reaches : ℕ → (ℕ → Option ForkInfo) → ForkInfo → Option ℕ → ℕ → ℕ → Bool
walk_reaches zero forks cur reach f rev = false
walk_reaches (suc fuel) forks cur reach f rev = elim (cur.parent_fork == cur.id) [
  | true ↦ false
  | false ↦
      let reach' : ℕ = lower reach cur.parent_revision in
      elim (cur.parent_fork == f) [
        | true ↦ leb rev reach'
        | false ↦ elim (forks cur.parent_fork) [
          | none ↦ false
          | some up ↦ walk_reaches fuel forks up (some reach') f rev
        ]
      ]
]

-- Whether one fork needs the revision.
unfoldable pub needs : (ℕ → Option ForkInfo) → ℕ → ℕ → Option ForkInfo → Bool
unfolding walk_reaches
needs forks f rev none = false
needs forks f rev (some other) =
    if other.deleted || ((other.id == f) || ltb rev other.pruned_up_to)
    then false
    else walk_reaches (suc other.id) forks other none f rev

-- A test of the forks with numbers below `n`.
unfoldable pub any_fork : ℕ → (ℕ → Bool) → Bool
any_fork zero test = false
any_fork (suc n) test = test n || any_fork n test

-- revisionNeededByOthers, in a document whose forks have numbers below `count`
unfoldable pub revision_needed_by_others : (ℕ → Option ForkInfo) → ℕ → ℕ → ℕ → Bool
unfolding any_fork needs
revision_needed_by_others forks count f rev = any_fork count (λ n. needs forks f rev (forks n))

-- What a loop that deletes entries of a fork keeps of a map.
abbrev pub keep_unless {ℓ} : {A : Type ℓ} → (ℕ → ℕ → Bool) → (ℕ → ℕ → Option A) → ℕ → ℕ → Option A
keep_unless drop entries f r = if drop f r then none else entries f r

-- The entries that Prune deletes.
abbrev pub pruned_away : (ℕ → Option ForkInfo) → ℕ → ℕ → ℕ → ℕ → ℕ → Bool
pruned_away forks count fork keep f r =
    (f == fork) && (ltb r keep && not (revision_needed_by_others forks count fork r))

-- pruneCursorHistory
unfoldable pub prune_cursor_history : (ℕ → Option ForkInfo) → ℕ → ℕ → ℕ → Cursor → Cursor
unfolding revision_needed_by_others
prune_cursor_history forks count fork keep c = record c {
  position_history = keep_unless (pruned_away forks count fork keep) c.position_history;
}

-- The snapshots that are in use: node, and the version of its snapshot.
abbrev pub InUse : Type 0
InUse = ℕ → ForkRevision → Bool

-- markSnapshotsReachableFrom; a child is numbered below its parent, so one round more than the
-- node's number is enough.
unfoldable pub mark_reachable : ℕ → Heap → ℕ → ℕ → ℕ → InUse → InUse
mark_reachable zero h fork rev id in_use = in_use
mark_reachable (suc fuel) h fork rev id in_use = elim (h.node_registry id) [
  | none ↦ in_use
  | some n ↦ elim (snapshot_at_with_key h.forks n fork rev) [
    | none ↦ in_use
    | some e ↦ elim (in_use id e.0) [
      | true ↦ in_use
      | false ↦
          let marked : InUse = λ i k. ((i == id) && key_eq k e.0) || in_use i k in
          elim e.1.is_leaf [
            | true ↦ marked
            | false ↦
                mark_reachable fuel h fork rev e.1.right_id
                  (mark_reachable fuel h fork rev e.1.left_id marked)
          ]
    ]
  ]
]

-- The root that markSnapshotsInUseForRevision starts from.
abbrev pub root_of : State → Option RevisionInfo → ℕ
root_of s none = s.root
root_of s (some info) = if info.root_id == 0 then s.root else info.root_id

-- markSnapshotsInUseForRevision
unfoldable pub mark_revision : State → ℕ → ℕ → InUse → InUse
unfolding mark_reachable
mark_revision s fork rev in_use =
    let root : ℕ = root_of s (find_revision_info s fork rev) in
    mark_reachable (suc root) s.heap fork rev root in_use

-- `n` revisions of a fork from one on
unfoldable pub mark_revisions : ℕ → State → ℕ → ℕ → InUse → InUse
unfolding mark_revision
mark_revisions zero s fork rev in_use = in_use
mark_revisions (suc n) s fork rev in_use =
    mark_revisions n s fork (rev + 1) (mark_revision s fork rev in_use)

-- The loop of forkDependsOn.
unfoldable pub depends_from : ℕ → (ℕ → Option ForkInfo) → ℕ → ℕ → ℕ → Bool
depends_from zero forks fork other cur = false
depends_from (suc fuel) forks fork other cur = elim (cur == fork) [
  | true ↦ false
  | false ↦ elim (cur == other) [
    | true ↦ true
    | false ↦ elim (forks cur) [
      | none ↦ false
      | some up ↦ elim (cur == up.parent_fork) [
        | true ↦ false
        | false ↦ depends_from fuel forks fork other up.parent_fork
      ]
    ]
  ]
]

-- forkDependsOn
unfoldable pub fork_depends_on : (ℕ → Option ForkInfo) → ℕ → ℕ → Bool
unfolding depends_from
fork_depends_on forks fork other = if fork == other then true else elim (forks fork) [
  | none ↦ false
  | some info ↦ depends_from (suc fork) forks fork other info.parent_fork
]

abbrev pub is_live : Option ForkInfo → Bool
is_live none = false
is_live (some f) = not f.deleted

-- A deleted fork that no other depends on is passed over.
unfoldable pub mark_fork : State → ℕ → Option ForkInfo → InUse → InUse
unfolding fork_depends_on mark_revisions any_fork
mark_fork s fork none in_use = in_use
mark_fork s fork (some info) in_use =
    let forks : ℕ → Option ForkInfo = s.heap.forks in
    let depended : Bool =
      any_fork (s.next_fork_id + 1) (λ n. is_live (forks n) && fork_depends_on forks n fork) in
    if info.deleted && not depended
    then in_use
    else mark_revisions (info.highest_revision + 1 - info.pruned_up_to) s fork info.pruned_up_to
        in_use

unfoldable pub mark_forks : ℕ → State → InUse → InUse
unfolding mark_fork
mark_forks zero s in_use = in_use
mark_forks (suc n) s in_use = mark_fork s n (s.heap.forks n) (mark_forks n s in_use)

unfoldable pub keep_used :
    (ForkRevision → Bool) → List (ForkRevision × Snapshot) → List (ForkRevision × Snapshot)
keep_used used [] = []
keep_used used ((k, s) ∷ h) = if used k then (k, s) ∷ keep_used used h else keep_used used h

abbrev swept : (ForkRevision → Bool) → Option Node → Option Node
swept used none = none
swept used (some n) = some (record { history = keep_used used n.history })

-- garbageCollectSnapshots
unfoldable pub garbage_collect : State → State
unfolding mark_forks keep_used
garbage_collect s =
    let in_use : InUse = mark_forks (s.next_fork_id + 1) s (λ i k. false) in
    record s {
      heap = record s.heap { node_registry = λ id. swept (in_use id) (s.heap.node_registry id) };
    }

-- What Prune does behind its checks.
unfoldable pub prune_to : ForkInfo → ℕ → Document → Document
unfolding prune_cursor_history garbage_collect
prune_to info keep d =
    let s : State = d.state in
    let fork : ℕ = s.heap.current_fork in
    let forks : ℕ → Option ForkInfo =
      update s.heap.forks fork (some (record info { pruned_up_to = keep })) in
    let count : ℕ = s.next_fork_id + 1 in
    record {
      state = garbage_collect (record s {
        heap = record s.heap { forks = forks };
        revision_info = keep_unless (pruned_away forks count fork keep) s.revision_info;
      });
      cursors = map (prune_cursor_history forks count fork keep) d.cursors;
    }

-- Prune
unfoldable pub prune : ℕ → Document → Result Document
unfolding prune_to
prune keep d = elim (d.state.heap.forks d.state.heap.current_fork) [
  | none ↦ err fork_not_found
  | some info ↦
      if ltb info.highest_revision keep
      then err revision_not_found
      else if leb keep info.pruned_up_to
      then ok d
      else if ltb d.state.heap.current_revision keep
      then err invalid_position
      else ok (prune_to info keep d)
]

-- The entries that DeleteFork deletes.
abbrev pub deleted_away : (ℕ → Option ForkInfo) → ℕ → ℕ → ℕ → ℕ → Bool
deleted_away forks count fork f r =
    (f == fork) && not (revision_needed_by_others forks count fork r)

unfoldable pub forget_fork : (ℕ → Option ForkInfo) → ℕ → ℕ → Cursor → Cursor
unfolding revision_needed_by_others
forget_fork forks count fork c = record c {
  position_history = keep_unless (deleted_away forks count fork) c.position_history;
}

-- What DeleteFork does behind its checks.
unfoldable pub delete_fork_of : ForkInfo → ℕ → Document → Document
unfolding forget_fork garbage_collect
delete_fork_of info fork d =
    let s : State = d.state in
    let forks : ℕ → Option ForkInfo =
      update s.heap.forks fork (some (record info { deleted = true })) in
    let count : ℕ = s.next_fork_id + 1 in
    record {
      state = garbage_collect (record s {
        heap = record s.heap { forks = forks };
        revision_info = keep_unless (deleted_away forks count fork) s.revision_info;
      });
      cursors = map (forget_fork forks count fork) d.cursors;
    }

-- DeleteFork
unfoldable pub delete_fork : ℕ → Document → Result Document
unfolding delete_fork_of any_fork
delete_fork fork d =
    if fork == d.state.heap.current_fork
    then err invalid_position
    else elim (d.state.heap.forks fork) [
      | none ↦ err fork_not_found
      | some info ↦
          if info.deleted
          then ok d
          else if any_fork (d.state.next_fork_id + 1)
              (λ n. is_live (d.state.heap.forks n) && not (n == fork))
          then ok (delete_fork_of info fork d)
          else err invalid_position
    ]
