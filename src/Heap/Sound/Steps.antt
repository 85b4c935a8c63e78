-- ===== src/Heap/Sound/Steps.antt =====
-- The operations on the registry keep its order, on their errors too.
use garland.Base.{
  ℕ, ◌+◌, ◌≤◌, ◌<◌, ◌≡◌, refl, ◌&&◌, ◌==◌, List, length, if◌then◌else◌, arith, Option, some, inl,
  inr, Bool-cases, Option-cases, ==→eq, and-left, and-right,
}
use garland.Result.{Result, ok, err}
use garland.Address.{Decoration}
use garland.Node.{Snapshot, create_leaf_snapshot, create_internal_snapshot}
use garland.Node.Marks.{Within}
use garland.Heap.{
  Heap, M, ◌>>=◌, continue, current, or_invalid, child, add_leaf, queue_updates, existing,
  add_internal, join, concatenate,
}
use garland.Heap.Sound.{Sound, view-Sits, put_snapshot-Sound, add_node-Sound}

-- Two steps; the second may use what the first returned.
pub bind-Sound :
    {A B : Type 0} (m : M A) (f : A → M B) (h : Heap)
    → Sound (m h).1
    → ((a : A) (g : Heap) → m h ≡ (ok a, g) → Sound g → Sound (f a g).1)
    → Sound ((m >>= f) h).1
bind-Sound {A} {B} m f h p q = after (m h).0 (m h).1 refl p
  where
    after :
        (r : Result A) (g : Heap)
        → m h ≡ (r, g)
        → Sound g
        → Sound (continue {A = A} {B = B} r g f).1
    after (ok a) g e p = q a g e p
    after (err e') g e p = p

-- A read of a node's snapshot.
pub child-Sound :
    {A : Type 0} (id : ℕ) (f : Snapshot → M A) (h : Heap)
    → Sound h
    → ((s : Snapshot) → current h id ≡ some s → Sound (f s h).1)
    → Sound ((child id >>= f) h).1
child-Sound id f h p q = elim (Option-cases (current h id)) [
  | inl e ↦ rw (e, or_invalid, continue, child) p
  | inr (s, e) ↦ rw (e, or_invalid, continue, child) (q s e)
]

pub add_leaf-Sound :
    (h : Heap) (bs : List ℕ) (ds : List Decoration) (o : Option ℕ)
    → Sound h
    → Within (length bs) ds
    → Sound (add_leaf bs ds o h).1
unfolding create_leaf_snapshot
add_leaf-Sound h bs ds o v w =
    add_node-Sound h.internal_nodes_by_children (create_leaf_snapshot bs ds o) v
      (inl (refl, refl, w)) v.filed

pub queue_updates-Sound :
    {h : Heap} (id offset : ℕ) (ds : List Decoration)
    → Sound h
    → Sound (queue_updates id offset ds h)
unfolding queue_updates
queue_updates-Sound id offset ds v = record {
  positive = v.positive;
  bounded = v.bounded;
  sits = v.sits;
  filed = v.filed;
}

module _ (left right : ℕ) (h : Heap) (v : Sound h) (l_below : left ≤ h.next_node_id)
    (r_below : right ≤ h.next_node_id) (l r : Snapshot) where
  new_filed :
      (i j id : ℕ)
      → (if (i == left) && (j == right)
          then some (h.next_node_id + 1)
          else h.internal_nodes_by_children i j)
        ≡ some id
      → (i < id) × (j < id)
  new_filed i j id e = elim (Bool-cases ((i == left) && (j == right))) [
    | inl q ↦
        let same : h.next_node_id + 1 ≡ id = cc (rw q at e) in
        let i_left : i ≡ left = ==→eq i left (and-left (i == left) (j == right) q) in
        let j_right : j ≡ right = ==→eq j right (and-right (i == left) (j == right) q) in
        (omega arith, omega arith)
    | inr q ↦ v.filed i j id (rw q at e)
  ]

  pub add_internal-Sound :
      Sound (add_internal left right (create_internal_snapshot left right l r) h).1
  unfolding add_internal create_internal_snapshot
  add_internal-Sound =
      add_node-Sound _ (create_internal_snapshot left right l r) v
        (inr (refl, omega arith, omega arith)) new_filed

  join-Sound : Sound (join left right (create_internal_snapshot left right l r) h).1
  unfolding join create_internal_snapshot
  join-Sound = elim (Option-cases (h.internal_nodes_by_children left right)) [
    | inl e ↦ rw (e, existing, join) add_internal-Sound
    | inr (id, e) ↦ elim (Option-cases (h.node_registry id)) [
      | inl e' ↦ rw (e, existing, e', join) add_internal-Sound
      | inr (n, e') ↦
          let above = v.filed left right id e in
          rw (e, existing, e', join)
            (put_snapshot-Sound id n (create_internal_snapshot left right l r) v e'
              (inr (refl, above.0, above.1)))
    ]
  ]

pub concatenate-Sound : (left right : ℕ) (h : Heap) → Sound h → Sound (concatenate left right h).1
unfolding concatenate
concatenate-Sound left right h v = child-Sound left _ h v (λ l e. child-Sound right _ h v (λ r e'.
    join-Sound left right h v (view-Sits v h.current_fork h.current_revision left l e).1
      (view-Sits v h.current_fork h.current_revision right r e').1 l r))
