-- ===== src/History/Undo.antt =====
-- Undoing an edit: UndoSeek to the revision before it.
use garland.Base.{
  ℕ, ◌+◌, ◌≤◌, ◌≡◌, ◌≢◌, refl, sym, true, false, leb, ◌==◌, Option, none, some, [], arith,
  Bool-cases, inl, inr, ==_refl, ne→==, leb→le, lt→ltb,
}
use garland.Result.{Result, ok}
use garland.Node.{ForkInfo, Node}
use garland.Coalesce.{CoalescePending, CoalesceState}
use garland.History.{
  new_fork, State, RevisionInfo, raise, enter_revision, create_fork_from_current, is_at_head,
  record_new_revision, update_counts_from_root,
}
use garland.History.Fork.{WellFormed, enter_revision-keeps}
use garland.History.Fork.Record.{no_next, no_next-fork, create_fork-WellFormed}
use garland.History.Seek.{undo_seek, find_revision_info, land}
use garland.History.Seek.Lands.{
  undo_seek-found, land-root, land-revision, land-heap, land-recounted, find_revision_info_exact,
  find_revision_info_parent,
}

-- A step of UndoSeek from a state that succeeds with this root and revision, in the same fork and
-- registry, and with the counts of the root.
pub record Lands (from : State) (out : Result State) (root rev : ℕ) : Type 0 where
  pub after : State
  pub succeeds : out ≡ ok after
  pub same_root : after.root ≡ root
  pub same_revision : after.heap.current_revision ≡ rev
  pub same_heap : after.heap ≡ record from.heap { current_revision = rev }
  pub recounted : (update_counts_from_root after).total_bytes ≡ after.total_bytes

pub raise-next :
    (f : ForkInfo) (rev : ℕ)
    → f.highest_revision ≤ rev
    → raise (some f) (rev + 1) ≡ some (record f { highest_revision = rev + 1 })
raise-next f rev le = rw (lt→ltb f.highest_revision (rev + 1) (omega arith))

-- The next revision of a document at its head.
abbrev next : State → CoalesceState → State
next u c = record (enter_revision (u.heap.current_revision + 1) [] true u) { coalesce = c }

next-fork :
    (u : State) (c : CoalesceState) (f : ForkInfo)
    → u.heap.forks u.heap.current_fork ≡ some f
    → f.highest_revision ≤ u.heap.current_revision
    → (next u c).heap.forks u.heap.current_fork
      ≡ some (record f { highest_revision = u.heap.current_revision + 1 })
unfolding enter_revision
next-fork u c f e le = rw (==_refl u.heap.current_fork, e) (raise-next f u.heap.current_revision le)

back :
    (u : State) (c : CoalesceState) (f : ForkInfo) (i : RevisionInfo) (n : Node)
    → u.transaction ≡ none
    → u.heap.forks u.heap.current_fork ≡ some f
    → f.highest_revision ≤ u.heap.current_revision
    → f.pruned_up_to ≤ u.heap.current_revision
    → find_revision_info (next u c) u.heap.current_fork u.heap.current_revision ≡ some i
    → i.revision ≡ u.heap.current_revision
    → i.root_id ≢ 0
    → u.heap.node_registry i.root_id ≡ some n
    → Lands
        (next u c)
        (undo_seek u.heap.current_revision (next u c))
        i.root_id
        u.heap.current_revision
unfolding enter_revision
back u c f i n outside e high pruned found same ne there =
    let rev : ℕ = u.heap.current_revision in
    record {
      after = land u.heap.current_fork rev i (next u c);
      succeeds =
          undo_seek-found (next u c) rev (record f { highest_revision = rev + 1 }) i outside
            (next-fork u c f e high) (omega arith) pruned (λ q. absurd (omega (arith, q))) found
            same;
      same_root = land-root (next u c) u.heap.current_fork rev i n ne there;
      same_revision = (land-revision (next u c) u.heap.current_fork rev i).1;
      same_heap = land-heap (next u c) u.heap.current_fork rev i n ne there;
      recounted = land-recounted (next u c) u.heap.current_fork rev i;
    }

next-keeps :
    (u : State) (w : WellFormed u) (c : CoalesceState) (f r : ℕ) (i : RevisionInfo)
    → u.revision_info u.heap.current_fork (u.heap.current_revision + 1) ≡ none
    → u.revision_info f r ≡ some i
    → (next u c).revision_info f r ≡ some i
next-keeps u w c f r i fresh e = enter_revision-keeps u w _ [] true fresh f r i e

-- The revision that a new fork starts from is found in its parent.
forked-found :
    (s : State) (w : WellFormed s) (c : CoalesceState) (i : RevisionInfo)
    → s.revision_info s.heap.current_fork s.heap.current_revision ≡ some i
    → find_revision_info
        (next (create_fork_from_current s) c)
        (s.next_fork_id + 1)
        s.heap.current_revision
      ≡ some i
unfolding create_fork_from_current enter_revision
forked-found s w c i e =
    let rev : ℕ = s.heap.current_revision in
    let u : State = create_fork_from_current s in
    let other : (rev == rev + 1) ≡ false = ne→== rev (rev + 1) (λ q. absurd (omega (arith, q))) in
    let older : s.heap.current_fork ≤ s.next_fork_id =
      w.numbered s.heap.current_fork w.current.info w.current.exists in
    find_revision_info_parent (next u c) (s.next_fork_id + 1) rev
      (record (new_fork s) { highest_revision = rev + 1 }) i
      (rw (==_refl (s.next_fork_id + 1), other) (no_next-fork s w rev))
      (next-fork u c (new_fork s) (rw (==_refl (s.next_fork_id + 1)) refl) (omega arith))
      (λ q. absurd (omega (arith, q, older))) (omega arith)
      (next-keeps u (create_fork-WellFormed s w) c s.heap.current_fork rev i
        (no_next-fork s w (rev + 1)) e)

-- The information of the current revision, when it is filed as recordMutation files it.
pub record Filed (s : State) : Type 0 where
  pub info : RevisionInfo
  pub filed : s.revision_info s.heap.current_fork s.heap.current_revision ≡ some info
  pub same_revision : info.revision ≡ s.heap.current_revision
  pub same_root : info.root_id ≡ s.root
  pub has_root : info.root_id ≢ 0
  pub node : Node
  pub registered : s.heap.node_registry info.root_id ≡ some node

back-at_head :
    (s : State) (w : WellFormed s) (c : CoalesceState) (i : RevisionInfo) (n : Node)
    → s.transaction ≡ none
    → is_at_head s ≡ true
    → s.revision_info s.heap.current_fork s.heap.current_revision ≡ some i
    → i.revision ≡ s.heap.current_revision
    → i.root_id ≢ 0
    → s.heap.node_registry i.root_id ≡ some n
    → w.current.info.pruned_up_to ≤ s.heap.current_revision
    → Lands
        (next s c)
        (undo_seek s.heap.current_revision (next s c))
        i.root_id
        s.heap.current_revision
back-at_head s w c i n outside q e same ne there pruned =
    let rev : ℕ = s.heap.current_revision in
    let head : leb w.current.info.highest_revision rev ≡ true = rw w.current.exists at q in
    back s c w.current.info i n outside w.current.exists (leb→le _ _ head) pruned
      (find_revision_info_exact (next s c) s.heap.current_fork rev i
        (next-keeps s w c s.heap.current_fork rev i (no_next s w q) e))
      same ne there

back-forked :
    (s : State) (w : WellFormed s) (c : CoalesceState) (i : RevisionInfo) (n : Node)
    → s.transaction ≡ none
    → s.revision_info s.heap.current_fork s.heap.current_revision ≡ some i
    → i.revision ≡ s.heap.current_revision
    → i.root_id ≢ 0
    → s.heap.node_registry i.root_id ≡ some n
    → Lands
        (next (create_fork_from_current s) c)
        (undo_seek s.heap.current_revision (next (create_fork_from_current s) c))
        i.root_id
        s.heap.current_revision
unfolding create_fork_from_current
back-forked s w c i n outside e same ne there =
    back (create_fork_from_current s) c (new_fork s) i n outside
      (rw (==_refl (s.next_fork_id + 1)) refl) (omega arith) (omega arith) (forked-found s w c i e)
      same ne there

-- The state with a new root, before the mutation is recorded.
abbrev pub with_root : ℕ → State → State
with_root root s = record s { root = root }

with_root-WellFormed : (root : ℕ) (s : State) → WellFormed s → WellFormed (with_root root s)
with_root-WellFormed root s w = record {
  known = w.known;
  numbered = w.numbered;
  current = w.current;
}

-- After an edit that made a revision, in a fork of its own or not, UndoSeek to the revision before
-- it succeeds and brings back the root that the document had, with its count of bytes.
pub undo_seek-record_new_revision :
    (s : State) (root now : ℕ) (pc : Option CoalescePending) (w : WellFormed s) (i : Filed s)
    → s.transaction ≡ none
    → w.current.info.pruned_up_to ≤ s.heap.current_revision
    → Lands
        (record_new_revision pc now (with_root root s)).1
        (undo_seek s.heap.current_revision (record_new_revision pc now (with_root root s)).1)
        s.root
        s.heap.current_revision
unfolding record_new_revision with_root-WellFormed
undo_seek-record_new_revision s root now pc w i outside pruned =
    let s' : State = with_root root s in
    let w' = with_root-WellFormed root s w in
    rw (sym i.same_root) (elim (Bool-cases (is_at_head s)) [
      | inl q ↦ rw q (
          back-at_head s' w' _ i.info i.node outside q i.filed i.same_revision i.has_root
            i.registered pruned)
      | inr q ↦ rw q (
          back-forked s' w' _ i.info i.node outside i.filed i.same_revision i.has_root i.registered)
    ])
