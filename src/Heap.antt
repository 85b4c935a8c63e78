-- ===== src/Heap.antt =====
-- The node registry: the fields of Garland that tree.go reads and writes, and its steps on them.
pub mod Steps
pub mod Views
pub mod Fresh
pub mod Represents
pub mod Queue
pub mod Sound
pub mod Later
pub mod Quiet
use garland.Base.{
  ℕ, zero, suc, ◌+◌, Bool, true, false, ◌&&◌, List, [], ◌∷◌, ◌++◌, map, ◌==◌, if◌then◌else◌, Option,
  none, some,
}
use garland.Result.{Error, Result, ok, err, invalid_position}
use garland.Address.{Decoration}
use garland.Node.{
  ForkRevision, ForkInfo, Snapshot, Node, snapshot_at, set_snapshot, create_leaf_snapshot,
  create_internal_snapshot,
}

-- pendingDecorationUpdate: an entry for the cache of decorations, applied when a revision is made.
pub record PendingUpdate : Type 0 where
  pub key : List ℕ
  pub node_id : ℕ
  pub offset : ℕ

-- The maps are functions; `none` is a key that is not in the map.
pub record Heap : Type 0 where
  pub forks : ℕ → Option ForkInfo
  pub current_fork : ℕ
  pub current_revision : ℕ
  pub next_node_id : ℕ
  pub node_manipulations : ℕ
  pub node_registry : ℕ → Option Node
  pub internal_nodes_by_children : ℕ → ℕ → Option ℕ
  pub max_leaf_size : ℕ
  pub target_leaf_size : ℕ
  pub pending_updates : List PendingUpdate

-- An operation: its result, and the registry it leaves behind, on an error too.
abbrev pub M : Type 0 → Type 0
M A = Heap → Result A × Heap

abbrev pub continue : {A B : Type 0} → Result A → Heap → (A → M B) → Result B × Heap
continue (ok a) h f = f a h
continue (err e) h f = (err e, h)

infixl 5 ◌>>=◌
abbrev pub ◌>>=◌ : {A B : Type 0} → M A → (A → M B) → M B
◌>>=◌ m f h = continue (m h).0 (m h).1 f

abbrev pub return : {A : Type 0} → A → M A
return a h = (ok a, h)

abbrev pub fail : {A : Type 0} → Error → M A
fail e h = (err e, h)

-- A node's snapshot at a version: `none` for no node, or for a node with no snapshot there.
abbrev pub view_of : (ℕ → Option ForkInfo) → ℕ → ℕ → Option Node → Option Snapshot
view_of forks fork rev none = none
view_of forks fork rev (some n) = snapshot_at forks n fork rev

abbrev pub view : Heap → ℕ → ℕ → ℕ → Option Snapshot
view h fork rev id = view_of h.forks fork rev (h.node_registry id)

-- g.nodeRegistry[id].snapshotAt(g.currentFork, g.currentRevision)
abbrev pub current : Heap → ℕ → Option Snapshot
current h id = view h h.current_fork h.current_revision id

-- The same, with ErrInvalidPosition in place of nil.
abbrev pub or_invalid : Option Snapshot → Result Snapshot
or_invalid none = err invalid_position
or_invalid (some s) = ok s

abbrev pub child : ℕ → M Snapshot
child id h = (or_invalid (current h id), h)

abbrev pub update {ℓ} : {A : Type ℓ} → (ℕ → A) → ℕ → A → ℕ → A
update f k v j = if j == k then v else f j

-- node.setSnapshot(g.currentFork, g.currentRevision, snap)
unfoldable pub put_snapshot : ℕ → Node → Snapshot → Heap → Heap
put_snapshot id node snap h = record h {
  node_registry =
      update h.node_registry id (some (set_snapshot h.current_fork h.current_revision snap node));
}

abbrev pub new_node : Node
new_node = record { history = [] }

-- The lines that make a node: the next number, a new entry in the registry, and its snapshot.
unfoldable pub add_node : Snapshot → M ℕ
unfolding put_snapshot
add_node snap h =
    let id : ℕ = h.next_node_id + 1 in
    (
      ok id,
      put_snapshot id new_node snap
          (record h { next_node_id = id; node_manipulations = h.node_manipulations + 1 }),
    )

abbrev pub add_leaf : List ℕ → List Decoration → Option ℕ → M ℕ
add_leaf bytes decs offset = add_node (create_leaf_snapshot bytes decs offset)

-- The same where the code counts no manipulation.
unfoldable pub add_leaf_quietly : List ℕ → List Decoration → Option ℕ → M ℕ
unfolding add_node
add_leaf_quietly bytes decs offset h =
    let out = add_leaf bytes decs offset h in
    (out.0, record out.1 { node_manipulations = h.node_manipulations })

-- updateDecorationCacheForNode
unfoldable pub queue_updates : ℕ → ℕ → List Decoration → Heap → Heap
queue_updates id offset decs h = record h {
  pending_updates =
      h.pending_updates ++ map (λ d. record { key = d.key; node_id = id; offset = offset }) decs;
}

-- The node that already joins two children, if the registry has it.
abbrev pub existing : Heap → ℕ → ℕ → Option (ℕ × Node)
existing h left right = elim (h.internal_nodes_by_children left right) [
  | none ↦ none
  | some id ↦ elim (h.node_registry id) [ none ↦ none | some n ↦ some (id, n) ]
]

-- A new node is also filed under its children.
unfoldable pub add_internal : ℕ → ℕ → Snapshot → M ℕ
unfolding add_node
add_internal left right snap h =
    let id : ℕ = h.next_node_id + 1 in
    let table : ℕ → ℕ → Option ℕ = h.internal_nodes_by_children in
    add_node snap (record h {
      internal_nodes_by_children =
          λ l r. if (l == left) && (r == right) then some id else table l r;
    })

-- The end of concatenate: the node that joins the two gets the snapshot, or a new one is made.
unfoldable pub join : ℕ → ℕ → Snapshot → M ℕ
unfolding put_snapshot add_internal
join left right snap h = elim (existing h left right) [
  | some (id, n) ↦ (ok id, put_snapshot id n snap h)
  | none ↦ add_internal left right snap h
]

-- concatenate
unfoldable pub concatenate : ℕ → ℕ → M ℕ
unfolding join
concatenate left right = do
  l ← child left
  r ← child right
  join left right (create_internal_snapshot left right l r)
