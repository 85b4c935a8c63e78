-- ===== src/Rope/Build.antt =====
-- buildBalancedSubtree (garland.go): the tree of a file that was read. `fuel` bounds the depth of
-- the recursion.
pub mod Endless
pub mod Nodes
pub mod Starts
pub mod Text
use garland.Base.{
  ℕ, zero, suc, ◌+◌, ◌/◌, Bool, true, false, ◌&&◌, List, [], ◌∷◌, take, drop, length, leb, ◌==◌,
  if◌then◌else◌, Option, none, some,
}
use garland.Result.{Result, ok, err, out_of_fuel}
use garland.Utf8.{align_to_rune_boundary}
use garland.Node.{Snapshot, create_leaf_snapshot, create_internal_snapshot, set_snapshot}
use garland.Heap.{Heap, M, ◌>>=◌, return, fail, update, new_node}

-- The lines that make a node of the first revision; they do not count as a manipulation.
unfoldable pub add_initial_node : Snapshot → M ℕ
add_initial_node snap h =
    let id : ℕ = h.next_node_id + 1 in
    (
      ok id,
      record h {
        next_node_id = id;
        node_registry = update h.node_registry id (some (set_snapshot 0 0 snap new_node));
      },
    )

-- The same of an inner node, which is also filed under its children.
unfoldable pub add_initial_parent : ℕ → ℕ → Snapshot → M ℕ
unfolding add_initial_node
add_initial_parent left right snap h =
    let id : ℕ = h.next_node_id + 1 in
    let table : ℕ → ℕ → Option ℕ = h.internal_nodes_by_children in
    add_initial_node snap (record h {
      internal_nodes_by_children =
          λ l r. if (l == left) && (r == right) then some id else table l r;
    })

-- Does the data fit in a single leaf?
unfoldable pub fits_leaf : List ℕ → Heap → Bool
fits_leaf bs h = leb (length bs) h.target_leaf_size

-- The two halves, each built by `build`, and their parent.
abbrev pub build_halves : (List ℕ → ℕ → M (ℕ × Snapshot)) → ℕ → List ℕ → ℕ → M (ℕ × Snapshot)
build_halves build mid bs offset = build (take mid bs) offset >>= λ left.
    build (drop mid bs) (offset + mid) >>= λ right.
    let snap : Snapshot = create_internal_snapshot left.0 right.0 left.1 right.1 in
    add_initial_parent left.0 right.0 snap >>= λ id. return (id, snap)

-- buildBalancedSubtree: the node and its snapshot.
unfoldable pub build_balanced_subtree : ℕ → List ℕ → ℕ → M (ℕ × Snapshot)
unfolding add_initial_node add_initial_parent fits_leaf
build_balanced_subtree zero bs offset h = fail out_of_fuel h
build_balanced_subtree (suc fuel) bs offset h = elim (fits_leaf bs h) [
  | true ↦
      let snap : Snapshot = create_leaf_snapshot bs [] (some offset) in
      (add_initial_node snap >>= λ id. return (id, snap)) h
  | false ↦
      build_halves (λ part start. build_balanced_subtree fuel part start)
        (align_to_rune_boundary bs (length bs / 2)) bs offset h
]
