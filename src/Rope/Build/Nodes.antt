-- ===== src/Rope/Build/Nodes.antt =====
-- The nodes of the first revision: made as all are, but not counted as manipulations.
use garland.Base.{ℕ, ◌+◌, ◌≡◌, ap, ◌∙◌, subst, List, Option, some}
use garland.Result.{ok}
use garland.Address.{Decoration}
use garland.Node.{Snapshot, create_leaf_snapshot, create_internal_snapshot, set_snapshot}
use garland.Heap.{Heap, put_snapshot, add_node, add_internal, update, new_node}
use garland.Heap.Views.{Valid}
use garland.Heap.Represents.{
  Rope, leaf, node, root_snapshot, Here, Makes, add_leaf-Makes, add_internal-Makes,
}
use garland.Heap.Quiet.{quiet, Makes-quiet}
use garland.Rope.Build.{add_initial_node, add_initial_parent}

abbrev filed_at : ℕ → ℕ → Snapshot → Heap → Heap
filed_at f r snap h = record h {
  next_node_id = h.next_node_id + 1;
  node_registry =
      update h.node_registry (h.next_node_id + 1) (some (set_snapshot f r snap new_node));
}

filed-first :
    (snap : Snapshot) (h : Heap)
    → h.current_fork ≡ 0
    → h.current_revision ≡ 0
    → filed_at h.current_fork h.current_revision snap h ≡ filed_at 0 0 snap h
filed-first snap h e e' =
    ap (λ f. filed_at f h.current_revision snap h) e ∙ ap (λ r. filed_at 0 r snap h) e'

initial-quiet :
    (snap : Snapshot) (h : Heap)
    → h.current_fork ≡ 0
    → h.current_revision ≡ 0
    → ((add_node snap h).0, quiet h.node_manipulations (add_node snap h).1)
      ≡ add_initial_node snap h
unfolding add_node put_snapshot add_initial_node
initial-quiet snap h e e' = ap (λ k. (ok (h.next_node_id + 1), k)) (filed-first snap h e e')

parent-quiet :
    (left right : ℕ) (snap : Snapshot) (h : Heap)
    → h.current_fork ≡ 0
    → h.current_revision ≡ 0
    → (
      (add_internal left right snap h).0,
      quiet h.node_manipulations (add_internal left right snap h).1,
    )
      ≡ add_initial_parent left right snap h
unfolding add_internal add_initial_parent
parent-quiet left right snap h e e' = initial-quiet snap _ e e'

pub add_initial_node-Makes :
    (h : Heap) (bs : List ℕ) (ds : List Decoration) (o : Option ℕ)
    → Valid h
    → h.current_fork ≡ 0
    → h.current_revision ≡ 0
    → Makes h (add_initial_node (create_leaf_snapshot bs ds o) h) (leaf bs ds o)
add_initial_node-Makes h bs ds o v e e' =
    subst (λ out. Makes h out (leaf bs ds o)) (initial-quiet (create_leaf_snapshot bs ds o) h e e')
      (Makes-quiet h.node_manipulations (add_leaf-Makes h bs ds o v))

pub add_initial_parent-Makes :
    (h : Heap) (left right : ℕ) (s t : Rope)
    → Valid h
    → Here h left s
    → Here h right t
    → h.current_fork ≡ 0
    → h.current_revision ≡ 0
    → Makes h
        (add_initial_parent left right
          (create_internal_snapshot left right (root_snapshot s) (root_snapshot t))
          h)
        (node left right s t)
add_initial_parent-Makes h left right s t v l r e e' =
    let snap = create_internal_snapshot left right (root_snapshot s) (root_snapshot t) in
    subst (λ out. Makes h out (node left right s t)) (parent-quiet left right snap h e e')
      (Makes-quiet h.node_manipulations (add_internal-Makes h left right s t v l r))
