-- ===== src/Heap/Sound.antt =====
-- The order of the registry: marks lie within their leaves, and a parent is numbered above its
-- children. It holds of every snapshot of every node, at all versions.
pub mod Steps
pub mod Depth
use garland.Base.{
  ℕ, suc, ◌+◌, ◌≤◌, ◌<◌, max, ◌≡◌, ◌≢◌, refl, ap, sym, ◌∙◌, subst, Bool, true, false, ◌&&◌, ◌==◌,
  List, length, if◌then◌else◌, arith, Option, none, some, inl, inr, ◌⊎◌, Bool-cases, Option-cases,
  ==→eq, ==→ne,
}
use garland.Result.{Error, Result, ok, err, invalid_position}
use garland.Address.{Decoration}
use garland.Node.{
  Snapshot, Node, set_entry, set_snapshot, snapshot_at, create_leaf_snapshot,
  create_internal_snapshot,
}
use garland.Node.Marks.{Within}
use garland.Node.Versions.{AllSnapshots, set_entry-All, snapshot_at-All}
use garland.Heap.{
  Heap, M, ◌>>=◌, continue, return, fail, view_of, view, current, or_invalid, child, update,
  new_node, put_snapshot, add_node, add_leaf, queue_updates, existing, add_internal, join,
  concatenate,
}
use garland.Heap.Views.{update_self, update_ne}

-- A snapshot of node `id` is in order.
abbrev pub Sits : ℕ → Snapshot → Type 0
Sits id s =
    ((s.is_leaf ≡ true)
      × (s.byte_count ≡ length s.content)
      × Within (length s.content) s.decorations)
    ⊎ ((s.is_leaf ≡ false) × (s.left_id < id) × (s.right_id < id))

pub record Sound (h : Heap) : Type 0 where
  pub positive : (id : ℕ) (n : Node) → h.node_registry id ≡ some n → id ≢ 0
  pub bounded : (id : ℕ) (n : Node) → h.node_registry id ≡ some n → id ≤ h.next_node_id
  pub sits : (id : ℕ) (n : Node) → h.node_registry id ≡ some n → AllSnapshots (Sits id) n.history
  pub filed :
      (left right id : ℕ)
      → h.internal_nodes_by_children left right ≡ some id
      → (left < id) × (right < id)

-- What a version sees of a node is in order, and the node is one of the registry.
pub view-Sits :
    {h : Heap}
    → Sound h
    → (f r id : ℕ) (s : Snapshot) → view h f r id ≡ some s
    → Sits id s × (id ≤ h.next_node_id)
view-Sits {h} v f r id s e = elim (Option-cases (h.node_registry id)) [
  | inl n ↦ cc (rw (n, view_of) at e)
  | inr (n, m) ↦ (
    snapshot_at-All (Sits id) h.forks n f r s (v.sits id n m) (rw (m, view_of) at e),
    v.bounded id n m,
  )
]

pub put_snapshot-Sound :
    {h : Heap} (id : ℕ) (n : Node) (snap : Snapshot)
    → Sound h
    → h.node_registry id ≡ some n
    → Sits id snap
    → Sound (put_snapshot id n snap h)
unfolding put_snapshot set_snapshot
put_snapshot-Sound {h} id n snap v here p = record {
  positive = λ j m e. elim (Bool-cases (j == id)) [
    | inl q ↦ rw (==→eq j id q) (v.positive id n here)
    | inr q ↦ v.positive j m (rw q at e)
  ];
  bounded = λ j m e. elim (Bool-cases (j == id)) [
    | inl q ↦ rw (==→eq j id q) (v.bounded id n here)
    | inr q ↦ v.bounded j m (rw q at e)
  ];
  sits = λ j m e. elim (Bool-cases (j == id)) [
    | inl q ↦
        let same : set_snapshot h.current_fork h.current_revision snap n ≡ m = cc (rw q at e) in
        subst (λ k. AllSnapshots (Sits k) m.history) (sym (==→eq j id q))
          (subst (λ (x : Node). AllSnapshots (Sits id) x.history) same
            (set_entry-All (Sits id) _ snap n.history p (v.sits id n here)))
    | inr q ↦ v.sits j m (rw q at e)
  ];
  filed = v.filed;
}

-- A new node, whatever is filed beside it.
module _ {h : Heap} (table : ℕ → ℕ → Option ℕ) (snap : Snapshot) (v : Sound h)
    (p : Sits (h.next_node_id + 1) snap)
    (filed : (left right id : ℕ) → table left right ≡ some id → (left < id) × (right < id)) where
  pub add_node-Sound : Sound (add_node snap (record h { internal_nodes_by_children = table })).1
  unfolding add_node put_snapshot set_snapshot set_entry
  add_node-Sound = record {
    positive = λ j m e. elim (Bool-cases (j == h.next_node_id + 1)) [
      | inl q ↦ λ z. absurd (omega (arith, z, ==→eq j (h.next_node_id + 1) q))
      | inr q ↦ v.positive j m (rw q at e)
    ];
    bounded = λ j m e. elim (Bool-cases (j == h.next_node_id + 1)) [
      | inl q ↦ omega (arith, ==→eq j (h.next_node_id + 1) q)
      | inr q ↦ omega (arith, v.bounded j m (rw q at e))
    ];
    sits = λ j m e. elim (Bool-cases (j == h.next_node_id + 1)) [
      | inl q ↦
          let same : set_snapshot h.current_fork h.current_revision snap new_node ≡ m =
            cc (rw q at e) in
          subst (λ k. AllSnapshots (Sits k) m.history) (sym (==→eq j (h.next_node_id + 1) q))
            (subst (λ (x : Node). AllSnapshots (Sits (h.next_node_id + 1)) x.history) same (p, tt))
      | inr q ↦ v.sits j m (rw q at e)
    ];
    filed = filed;
  }
