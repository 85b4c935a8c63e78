-- ===== src/History/Seek/Lands.antt =====
-- Where UndoSeek lands.
use garland.Base.{
  ℕ, suc, eq→==, ◌≤◌, ◌≡◌, ◌≢◌, refl, ap, ◌∙◌, true, false, ◌==◌, Option, none, some, ge→ltb, ne→==,
  le→leb,
}
use garland.Result.{ok}
use garland.Node.{ForkInfo, Snapshot, Node}
use garland.Heap.{current}
use garland.Coalesce.{CoalesceState, bake}
use garland.History.{in_transaction, State, RevisionInfo, counted, update_counts_from_root}
use garland.History.Seek.{
  find_revision_info, find_revision_info_in, install, land, undo_seek, undo_seek_in,
}

module _ (forks : ℕ → Option ForkInfo) (infos : ℕ → ℕ → Option RevisionInfo) (rounds fork rev : ℕ)
    (i : RevisionInfo) where
  found-exact :
      infos fork rev ≡ some i → find_revision_info_in forks infos (suc rounds) fork rev ≡ some i
  unfolding find_revision_info_in
  found-exact e = rw (find_revision_info_in, e)

  found-parent :
      (f : ForkInfo)
      → infos fork rev ≡ none
      → forks fork ≡ some f
      → f.parent_fork ≢ fork
      → rev ≤ f.parent_revision
      → find_revision_info_in forks infos rounds f.parent_fork rev ≡ some i
      → find_revision_info_in forks infos (suc rounds) fork rev ≡ some i
  unfolding find_revision_info_in
  found-parent f e e' ne le there =
      rw
        (find_revision_info_in, e, e', ne→== f.parent_fork fork ne, le→leb rev f.parent_revision le)
        there

-- A revision with information of its own is found.
pub find_revision_info_exact :
    (s : State) (fork rev : ℕ) (i : RevisionInfo)
    → s.revision_info fork rev ≡ some i
    → find_revision_info s fork rev ≡ some i
unfolding find_revision_info
find_revision_info_exact s fork rev i e = found-exact s.heap.forks s.revision_info 999 fork rev i e

-- One that a fork has from its parent is found there.
pub find_revision_info_parent :
    (s : State) (fork rev : ℕ) (f : ForkInfo) (i : RevisionInfo)
    → s.revision_info fork rev ≡ none
    → s.heap.forks fork ≡ some f
    → f.parent_fork ≢ fork
    → rev ≤ f.parent_revision
    → s.revision_info f.parent_fork rev ≡ some i
    → find_revision_info s fork rev ≡ some i
unfolding find_revision_info
find_revision_info_parent s fork rev f i e e' ne le there =
    found-parent s.heap.forks s.revision_info 999 fork rev i f e e' ne le
      (found-exact s.heap.forks s.revision_info 998 f.parent_fork rev i there)

counted-root : (s : State) (snap : Option Snapshot) → (counted s snap).root ≡ s.root
counted-root s none = refl
counted-root s (some snap) = refl

counted-heap : (s : State) (snap : Option Snapshot) → (counted s snap).heap ≡ s.heap
counted-heap s none = refl
counted-heap s (some snap) = refl

-- What landing at a revision with a registered root leaves.
pub land-root :
    (s : State) (fork rev : ℕ) (i : RevisionInfo) (n : Node)
    → i.root_id ≢ 0
    → s.heap.node_registry i.root_id ≡ some n
    → (land fork rev i s).root ≡ i.root_id
unfolding land install update_counts_from_root
land-root s fork rev i n ne e = rw (ne→== i.root_id 0 ne, e) (counted-root _ _)

pub land-revision :
    (s : State) (fork rev : ℕ) (i : RevisionInfo)
    → ((land fork rev i s).heap.current_fork ≡ fork)
      × ((land fork rev i s).heap.current_revision ≡ rev)
unfolding land install update_counts_from_root
land-revision s fork rev i =
    (ap (λ h. h.current_fork) (counted-heap _ _), ap (λ h. h.current_revision) (counted-heap _ _))

-- The registry stays, and so do the forks.
pub land-heap :
    (s : State) (fork rev : ℕ) (i : RevisionInfo) (n : Node)
    → i.root_id ≢ 0
    → s.heap.node_registry i.root_id ≡ some n
    → (land fork rev i s).heap ≡ record s.heap { current_fork = fork; current_revision = rev }
unfolding land install update_counts_from_root
land-heap s fork rev i n ne e = rw (ne→== i.root_id 0 ne, e) (counted-heap _ _)

recount-twice :
    (s : State) (c : CoalesceState) (snap : Option Snapshot)
    → current s.heap s.root ≡ snap
    → (update_counts_from_root (record (counted s snap) { coalesce = c })).total_bytes
      ≡ (counted s snap).total_bytes
unfolding update_counts_from_root
recount-twice s c none e = rw e
recount-twice s c (some snap) e = rw e

-- The counts are those of the root.
pub land-recounted :
    (s : State) (fork rev : ℕ) (i : RevisionInfo)
    → (update_counts_from_root (land fork rev i s)).total_bytes ≡ (land fork rev i s).total_bytes
unfolding land update_counts_from_root
land-recounted s fork rev i =
    let landed : State = record (install i s) {
      heap = record (install i s).heap { current_fork = fork; current_revision = rev };
    } in
    recount-twice landed (bake (update_counts_from_root landed).coalesce)
      (current landed.heap landed.root) refl

seek_in-found :
    (s : State) (rev : ℕ) (f : ForkInfo) (i : RevisionInfo)
    → rev ≤ f.highest_revision
    → f.pruned_up_to ≤ rev
    → rev ≢ s.heap.current_revision
    → find_revision_info s s.heap.current_fork rev ≡ some i
    → i.revision ≡ rev
    → undo_seek_in f rev s ≡ ok (land s.heap.current_fork rev i s)
unfolding undo_seek_in
seek_in-found s rev f i high pruned ne found same =
    let is_same : (i.revision == rev) ≡ true = eq→== i.revision rev same in
    rw (
      ge→ltb f.highest_revision rev high,
      ge→ltb rev f.pruned_up_to pruned,
      ne→== rev s.heap.current_revision ne,
      found,
      is_same,
    )

not_in_transaction : (s : State) → s.transaction ≡ none → in_transaction s ≡ false
not_in_transaction s e = rw e

seek-in :
    (s : State) (rev : ℕ) (f : ForkInfo)
    → in_transaction s ≡ false
    → s.heap.forks s.heap.current_fork ≡ some f
    → undo_seek rev s ≡ undo_seek_in f rev s
unfolding undo_seek
seek-in s rev f outside e = rw (outside, e)

-- UndoSeek to a revision of the fork that is found.
pub undo_seek-found :
    (s : State) (rev : ℕ) (f : ForkInfo) (i : RevisionInfo)
    → s.transaction ≡ none
    → s.heap.forks s.heap.current_fork ≡ some f
    → rev ≤ f.highest_revision
    → f.pruned_up_to ≤ rev
    → rev ≢ s.heap.current_revision
    → find_revision_info s s.heap.current_fork rev ≡ some i
    → i.revision ≡ rev
    → undo_seek rev s ≡ ok (land s.heap.current_fork rev i s)
undo_seek-found s rev f i outside e high pruned ne found same =
    seek-in s rev f (not_in_transaction s outside) e
    ∙ seek_in-found s rev f i high pruned ne found same
