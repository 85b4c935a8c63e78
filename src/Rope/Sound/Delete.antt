-- ===== src/Rope/Sound/Delete.antt =====
-- A deletion keeps the order of the registry.
use garland.Base.{
  ℕ, zero, suc, ◌+◌, ◌-◌, ◌≤◌, min, ◌≡◌, List, [], ◌∷◌, ◌++◌, take, drop, length, ltb, leb, ◌==◌,
  ◌||◌, arith, inl, inr, Bool-cases, Option-cases, some, none, length-append, length-take,
  length-drop, ltb→lt, ltb→ge, leb→le,
}
use garland.Address.{Decoration}
use garland.Node.{Snapshot}
use garland.Node.Marks.{Within}
use garland.Heap.{Heap, M, ◌>>=◌, continue, current, add_leaf, concatenate}
use garland.Heap.Sound.{Sits, Sound, view-Sits}
use garland.Heap.Sound.Steps.{bind-Sound, add_leaf-Sound, concatenate-Sound}
use garland.Rope.Delete.{
  or_panic, deref, kept_marks, delete_in_leaf, is_blank, join_rest, delete_range_internal,
  delete_range,
}

-- An unchecked read of a node's snapshot.
pub deref-Sound :
    {A : Type 0} (id : ℕ) (f : Snapshot → M A) (h : Heap)
    → Sound h
    → ((s : Snapshot) → current h id ≡ some s → Sound (f s h).1)
    → Sound ((deref id >>= f) h).1
deref-Sound id f h p q = elim (Option-cases (current h id)) [
  | inl e ↦ rw (e, or_panic, continue, deref) p
  | inr (s, e) ↦ rw (e, or_panic, continue, deref) (q s e)
]

Within-kept_marks :
    (n from to : ℕ) (ds : List Decoration)
    → to ≤ n
    → Within n ds
    → Within (min from n + (n - to)) (kept_marks from to ds)
unfolding kept_marks
Within-kept_marks n from to [] le w = tt
Within-kept_marks n from to (d ∷ ds) le w =
    let ih = Within-kept_marks n from to ds le w.1 in
    elim (Bool-cases (ltb d.position from)) [
      | inl q ↦ rw q (omega (arith, w.0, ltb→lt _ _ q), ih)
      | inr q ↦ elim (Bool-cases (leb to d.position)) [
        | inl q' ↦ rw (q, q') (omega (arith, w.0, ltb→ge _ _ q, leb→le _ _ q'), ih)
        | inr q' ↦ rw (q, q') ih
      ]
    ]

delete_in_leaf-Sound :
    (h : Heap) (id : ℕ) (snap : Snapshot) (start_pos end_pos offset : ℕ) (deleted : List Decoration)
    → Sound h
    → snap.byte_count ≡ length snap.content
    → Within (length snap.content) snap.decorations
    → Sound (delete_in_leaf snap start_pos end_pos offset deleted h).1
unfolding delete_in_leaf
delete_in_leaf-Sound h id snap start_pos end_pos offset deleted v size w =
    let from : ℕ = start_pos - offset in
    let to : ℕ = min (end_pos - offset) snap.byte_count in
    let left : List ℕ = take from snap.content in
    let right : List ℕ = drop to snap.content in
    let total : length (left ++ right)
        ≡ min from (length snap.content) + (length snap.content - to) =
      omega (
        arith,
        length-append left right,
        length-take from snap.content,
        length-drop to snap.content,
      ) in
    bind-Sound (add_leaf (left ++ right) (kept_marks from to snap.decorations) none) _ h
      (add_leaf-Sound h (left ++ right) (kept_marks from to snap.decorations) none v (
        rw total (
          Within-kept_marks (length snap.content) from to snap.decorations (omega (arith, size))
            w)))
      (λ a g e p. p)

join_rest-Sound :
    (h : Heap) (left right : ℕ) (deleted : List Decoration)
    → Sound h
    → Sound (join_rest left right deleted h).1
unfolding join_rest
join_rest-Sound h left right deleted v = deref-Sound left _ h v (λ l e.
    deref-Sound right _ h v (λ r e'. elim (Bool-cases (is_blank l)) [
      | inl q ↦ rw q v
      | inr q ↦ elim (Bool-cases (is_blank r)) [
        | inl q' ↦ rw (q, q') v
        | inr q' ↦
            rw (q, q')
              (bind-Sound (concatenate left right) _ h (concatenate-Sound left right h v)
                (λ a g e'' p. p))
      ]
    ]))

-- With any fuel, also when it runs out.
pub delete_range_internal-Sound :
    (fuel : ℕ) (h : Heap) (id : ℕ) (snap : Snapshot) (start_pos end_pos offset : ℕ)
    (deleted : List Decoration)
    → Sound h
    → Sits id snap
    → Sound (delete_range_internal fuel id snap start_pos end_pos offset deleted h).1
unfolding delete_range_internal
delete_range_internal-Sound zero h id snap a b offset deleted v s = v
delete_range_internal-Sound (suc fuel) h id snap a b offset deleted v (inl p) =
    elim (Bool-cases (leb b offset || leb (offset + snap.byte_count) a)) [
      | inl q ↦ rw (q, delete_range_internal) v
      | inr q ↦
          rw (q, delete_range_internal, p.0)
            (delete_in_leaf-Sound h id snap a b offset deleted v p.1 p.2)
    ]
delete_range_internal-Sound (suc fuel) h id snap a b offset deleted v (inr p) =
    elim (Bool-cases (leb b offset || leb (offset + snap.byte_count) a)) [
      | inl q ↦ rw (q, delete_range_internal) v
      | inr q ↦
          rw (q, delete_range_internal, p.0)
            (deref-Sound snap.left_id _ h v (λ l e. deref-Sound snap.right_id _ h v (λ r e'.
              bind-Sound (delete_range_internal fuel snap.left_id l a b offset deleted) _ h
                (delete_range_internal-Sound fuel h snap.left_id l a b offset deleted v
                  (view-Sits v h.current_fork h.current_revision snap.left_id l e).0)
                (λ new_left g t v'.
                  bind-Sound
                    (delete_range_internal fuel snap.right_id r a b (offset + l.byte_count)
                      new_left.1)
                    _ g
                    (delete_range_internal-Sound fuel g snap.right_id r a b (offset + l.byte_count)
                      new_left.1 v'
                      (view-Sits v h.current_fork h.current_revision snap.right_id r e').0)
                    (λ new_right g' t' v''.
                      join_rest-Sound g' new_left.0 new_right.0 new_right.1 v'')))))
    ]

-- A deletion keeps the order of the registry, with any fuel, also when it runs out.
pub delete_range-Sound :
    (fuel : ℕ) (h : Heap) (root start_pos len : ℕ)
    → Sound h
    → Sound (delete_range fuel root start_pos len h).1
unfolding delete_range
delete_range-Sound fuel h root start_pos len v = elim (Bool-cases (len == 0)) [
  | inl q ↦ rw q v
  | inr q ↦ rw q (
      deref-Sound root _ h v (λ s e.
        delete_range_internal-Sound fuel h root s start_pos (start_pos + len) 0 [] v
          (view-Sits v h.current_fork h.current_revision root s e).0))
]
