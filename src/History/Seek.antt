-- ===== src/History/Seek.antt =====
-- Moving through the versions (garland.go): findRevisionInfo, findCommonRevision, UndoSeek and
-- ForkSeek. An error leaves the state as it was, so the result of a step is the new state.
pub mod Lands
use garland.Base.{
  ℕ, zero, suc, ◌+◌, ◌-◌, Bool, true, false, not, ◌&&◌, ◌||◌, ltb, leb, ◌==◌, if◌then◌else◌, Option,
  none, some, min,
}
use garland.Result.{Result, ok, err, transaction_pending, fork_not_found, revision_not_found, ◌>>=◌}
use garland.Node.{ForkInfo}
use garland.Heap.{update}
use garland.Coalesce.{bake}
use garland.History.{RevisionInfo, State, in_transaction, update_counts_from_root}

-- The loop of findRevisionInfo, which stops after so many rounds.
unfoldable pub find_revision_info_in :
    (ℕ → Option ForkInfo) → (ℕ → ℕ → Option RevisionInfo) → ℕ → ℕ → ℕ → Option RevisionInfo
find_revision_info_in forks infos zero fork rev = none
find_revision_info_in forks infos (suc rounds) fork rev = elim (infos fork rev) [
  | some info ↦ some info
  | none ↦ elim (forks fork) [
    | none ↦ elim (rev == 0) [
      | true ↦ none
      | false ↦ find_revision_info_in forks infos rounds fork (rev - 1)
    ]
    | some f ↦ elim (not (f.parent_fork == fork) && leb rev f.parent_revision) [
      | true ↦ find_revision_info_in forks infos rounds f.parent_fork rev
      | false ↦ elim (rev == 0) [
        | false ↦ find_revision_info_in forks infos rounds fork (rev - 1)
        | true ↦ elim (f.parent_fork == fork) [
          | true ↦ none
          | false ↦ find_revision_info_in forks infos rounds f.parent_fork f.parent_revision
        ]
      ]
    ]
  ]
]

abbrev max_iterations : ℕ
max_iterations = 1000

-- findRevisionInfo
unfoldable pub find_revision_info : State → ℕ → ℕ → Option RevisionInfo
unfolding find_revision_info_in
find_revision_info s fork rev =
    find_revision_info_in s.heap.forks s.revision_info max_iterations fork rev

-- reachInto: the map from a fork and its ancestors to the highest revision reached. `fuel` is at
-- least the number of forks on the way.
unfoldable pub reach_into_from :
    (ℕ → Option ForkInfo) → ℕ → Option ForkInfo → ℕ → (ℕ → Option ℕ) → ℕ → Option ℕ
reach_into_from forks zero cur reach out = out
reach_into_from forks (suc fuel) none reach out = out
reach_into_from forks (suc fuel) (some f) reach out = elim (f.parent_fork == f.id) [
  | true ↦ out
  | false ↦
      let reach' : ℕ = if ltb f.parent_revision reach then f.parent_revision else reach in
      reach_into_from forks fuel (forks f.parent_fork) reach'
        (update out f.parent_fork (some reach'))
]

unfoldable pub reach_into : (ℕ → Option ForkInfo) → ℕ → ℕ → ℕ → Option ℕ
unfolding reach_into_from
reach_into forks start limit =
    reach_into_from forks (suc start) (forks start) limit (update (λ _. none) start (some limit))

abbrev reach_or_zero : Option ℕ → ℕ
reach_or_zero none = 0
reach_or_zero (some n) = n

-- The walk up from the target to the first fork that the source reaches.
unfoldable pub junction : (ℕ → Option ForkInfo) → (ℕ → Option ℕ) → (ℕ → Option ℕ) → ℕ → ℕ → ℕ
junction forks src tgt zero cur = 0
junction forks src tgt (suc fuel) cur = elim (src cur) [
  | some sr ↦ if ltb sr (reach_or_zero (tgt cur)) then sr else reach_or_zero (tgt cur)
  | none ↦ elim (forks cur) [
    | none ↦ 0
    | some f ↦ elim (f.parent_fork == cur) [
      | true ↦ 0
      | false ↦ junction forks src tgt fuel f.parent_fork
    ]
  ]
]

-- findCommonRevision, with the highest revision of the target
unfoldable pub find_common_revision : (ℕ → Option ForkInfo) → ℕ → ℕ → ℕ → ℕ → ℕ
unfolding reach_into junction
find_common_revision forks source source_rev target highest =
    junction forks (reach_into forks source source_rev) (reach_into forks target highest)
      (suc target) target

-- A root that is registered is installed.
unfoldable pub install : RevisionInfo → State → State
install info s = if info.root_id == 0 then s else elim (s.heap.node_registry info.root_id) [
  | none ↦ s
  | some n ↦ record s { root = info.root_id }
]

-- Landing at a fork and revision.
unfoldable pub land : ℕ → ℕ → RevisionInfo → State → State
unfolding install update_counts_from_root
land fork rev info s =
    let s' : State = install info s in
    let s'' : State =
      update_counts_from_root
        (record s' { heap = record s'.heap { current_fork = fork; current_revision = rev } }) in
    record s'' { coalesce = bake s''.coalesce }

abbrev or_missing : Option RevisionInfo → Result RevisionInfo
or_missing none = err revision_not_found
or_missing (some info) = ok info

-- UndoSeek in a fork
unfoldable pub undo_seek_in : ForkInfo → ℕ → State → Result State
unfolding find_revision_info land
undo_seek_in f revision s =
    if ltb f.highest_revision revision
    then err revision_not_found
    else if ltb revision f.pruned_up_to
    then err revision_not_found
    else if revision == s.heap.current_revision
    then ok s
    else (or_missing (find_revision_info s s.heap.current_fork revision) >>= λ info.
        if info.revision == revision
        then ok (land s.heap.current_fork revision info s)
        else err revision_not_found)

-- UndoSeek
unfoldable pub undo_seek : ℕ → State → Result State
unfolding undo_seek_in
undo_seek revision s =
    if in_transaction s then err transaction_pending else elim (s.heap.forks s.heap.current_fork) [
      | none ↦ err fork_not_found
      | some f ↦ undo_seek_in f revision s
    ]

-- ForkSeek to a fork that exists
unfoldable pub fork_seek_to : ForkInfo → ℕ → State → Result State
unfolding find_common_revision find_revision_info land
fork_seek_to f fork s =
    if f.deleted
    then err fork_not_found
    else if fork == s.heap.current_fork
    then ok s
    else (let common : ℕ =
          find_common_revision s.heap.forks s.heap.current_fork s.heap.current_revision fork
            f.highest_revision in
        let target : ℕ = if ltb f.highest_revision common then f.highest_revision else common in
        or_missing (find_revision_info s fork target) >>= λ info.
        ok (land fork info.revision info s))

-- ForkSeek
unfoldable pub fork_seek : ℕ → State → Result State
unfolding fork_seek_to
fork_seek fork s =
    if in_transaction s
    then err transaction_pending
    else elim (s.heap.forks fork) [ none ↦ err fork_not_found | some f ↦ fork_seek_to f fork s ]
