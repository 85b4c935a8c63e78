-- ===== src/Rope/Delete/Text.antt =====
-- The text of the rope that deleteRange returns.
use garland.Base.{
  ℕ, zero, suc, ◌+◌, ◌-◌, ◌≤◌, ◌≡◌, ap, sym, ◌∙◌, Bool, true, false, ◌||◌, List, [], ◌++◌, take,
  drop, length, leb, ◌==◌, arith, inl, inr, Bool-cases, Option, some, take-append-drop, leb→le,
  ==→eq,
}
use garland.Address.{Decoration}
use garland.Node.{Snapshot, create_leaf_snapshot, create_internal_snapshot}
use garland.Heap.{Heap, M, ◌>>=◌, continue, return, current}
use garland.Heap.Views.{Valid}
use garland.Heap.Represents.{
  Rope, leaf, node, text, height, root_snapshot, byte_count-root_snapshot, Here, Here-Grows,
}
use garland.Rope.Delete.{
  or_panic, deref, delete_in_leaf, join_rest, delete_range_internal, delete_range,
}
use garland.Rope.Delete.Steps.{
  without, without-append, without-behind, Leaves, unchanged, Leaves-bind, with-text, here-view,
  join_rest-Leaves, delete_in_leaf-Leaves,
}

-- Whether the range does not meet the node.
abbrev apart : ℕ → ℕ → ℕ → Snapshot → Bool
apart start_pos end_pos offset snap = leb end_pos offset || leb (offset + snap.byte_count) start_pos

apart-text :
    (t : Rope) (start_pos end_pos offset : ℕ)
    → start_pos ≤ end_pos
    → apart start_pos end_pos offset (root_snapshot t) ≡ true
    → text t ≡ without (start_pos - offset) (end_pos - offset) (text t)
apart-text t start_pos end_pos offset le q = elim (Bool-cases (leb end_pos offset)) [
  | inl q' ↦
      let a : start_pos - offset ≡ 0 = omega (arith, leb→le end_pos offset q') in
      let b : end_pos - offset ≡ 0 = omega (arith, leb→le end_pos offset q') in rw (a, b)
  | inr q' ↦
      let far : offset + (root_snapshot t).byte_count ≤ start_pos = leb→le _ _ (rw q' at q) in
      sym
        (without-behind _ _ (text t) (omega arith) (omega (arith, far, byte_count-root_snapshot t)))
]

step-apart :
    (fuel : ℕ) (h : Heap) (id : ℕ) (snap : Snapshot) (start_pos end_pos offset : ℕ)
    (deleted : List Decoration)
    → apart start_pos end_pos offset snap ≡ true
    → delete_range_internal (suc fuel) id snap start_pos end_pos offset deleted h
      ≡ return (id, deleted) h
unfolding delete_range_internal
step-apart fuel h id snap start_pos end_pos offset deleted q = rw (q, delete_range_internal)

step-leaf :
    (fuel : ℕ) (h : Heap) (id : ℕ) (bs : List ℕ) (ds : List Decoration) (o : Option ℕ)
    (start_pos end_pos offset : ℕ) (deleted : List Decoration)
    → apart start_pos end_pos offset (create_leaf_snapshot bs ds o) ≡ false
    → delete_range_internal
        (suc fuel)
        id
        (create_leaf_snapshot bs ds o)
        start_pos
        end_pos
        offset
        deleted
        h
      ≡ delete_in_leaf (create_leaf_snapshot bs ds o) start_pos end_pos offset deleted h
unfolding delete_range_internal create_leaf_snapshot
step-leaf fuel h id bs ds o start_pos end_pos offset deleted q = rw (q, delete_range_internal)

step-node :
    (fuel : ℕ) (h : Heap) (id i j : ℕ) (l r : Snapshot) (start_pos end_pos offset : ℕ)
    (deleted : List Decoration)
    → apart start_pos end_pos offset (create_internal_snapshot i j l r) ≡ false
    → current h i ≡ some l
    → current h j ≡ some r
    → delete_range_internal
        (suc fuel)
        id
        (create_internal_snapshot i j l r)
        start_pos
        end_pos
        offset
        deleted
        h
      ≡ (delete_range_internal fuel i l start_pos end_pos offset deleted >>= λ new_left.
            delete_range_internal fuel j r start_pos end_pos (offset + l.byte_count) new_left.1
            >>= λ new_right. join_rest new_left.0 new_right.0 new_right.1)
          h
unfolding delete_range_internal create_internal_snapshot
step-node fuel h id i j l r start_pos end_pos offset deleted q e e' =
    rw (delete_range_internal, q, e, or_panic, continue, e')

delete_in_node-Leaves :
    (h : Heap) (i j : ℕ) (l r : Rope) (first : M (ℕ × List Decoration))
    (second : List Decoration → M (ℕ × List Decoration)) (xs ys : List ℕ)
    → Here h j r
    → (p : Leaves h (first h) xs)
    → ((after : Heap) (deleted : List Decoration)
        → Valid after
        → Here after j r
        → Leaves after (second deleted after) ys)
    → Leaves h
        ((first >>= λ new_left.
            second new_left.1 >>= λ new_right. join_rest new_left.0 new_right.0 new_right.1)
          h)
        (xs ++ ys)
delete_in_node-Leaves h i j l r first second xs ys right p q =
    let q' = q p.after p.report p.valid (Here-Grows p.grows j r right) in
    Leaves-bind first _ p (
      Leaves-bind (second p.report) (λ new_right. join_rest p.id new_right.0 new_right.1) q'
        (with-text (ap (λ t. t ++ text q'.rope) p.same_text ∙ ap (xs ++◌) q'.same_text) (
          join_rest-Leaves q'.after p.id q'.id p.rope q'.rope q'.report q'.valid
            (Here-Grows q'.grows p.id p.rope p.here) q'.here)))

-- What is shown of deleteRangeInternal, with this much fuel.
abbrev Deletes : ℕ → Type 0
Deletes fuel =
    (h : Heap) (id : ℕ) (t : Rope) (start_pos end_pos offset : ℕ) (deleted : List Decoration)
    → Valid h
    → Here h id t
    → height t ≤ fuel
    → start_pos ≤ end_pos
    → Leaves h (delete_range_internal fuel id (root_snapshot t) start_pos end_pos offset deleted h)
        (without (start_pos - offset) (end_pos - offset) (text t))

delete_inside :
    (fuel : ℕ)
    → Deletes fuel
    → (h : Heap) (id : ℕ) (t : Rope) (start_pos end_pos offset : ℕ) (deleted : List Decoration)
    → Valid h
    → Here h id t
    → height t ≤ suc fuel
    → start_pos ≤ end_pos
    → apart start_pos end_pos offset (root_snapshot t) ≡ false
    → Leaves h
        (delete_range_internal (suc fuel) id (root_snapshot t) start_pos end_pos offset deleted h)
        (without (start_pos - offset) (end_pos - offset) (text t))
unfolding root_snapshot
delete_inside fuel ih h id (leaf bs ds o) a b offset deleted v here tall le q =
    rw (step-leaf fuel h id bs ds o a b offset deleted q)
      (delete_in_leaf-Leaves h bs ds o a b offset deleted v)
delete_inside fuel ih h id (node i j l r) a b offset deleted v here tall le q =
    let next : ℕ = offset + (root_snapshot l).byte_count in
    let size = byte_count-root_snapshot l in
    let a' : a - next ≡ (a - offset) - length (text l) = omega (arith, size) in
    let b' : b - next ≡ (b - offset) - length (text l) = omega (arith, size) in
    rw
      (step-node fuel h id i j (root_snapshot l) (root_snapshot r) a b offset deleted q
        (here-view h i l here.1) (here-view h j r here.2))
      (with-text (without-append (a - offset) (b - offset) (text l) (text r) (omega arith)) (
        delete_in_node-Leaves h i j l r
          (delete_range_internal fuel i (root_snapshot l) a b offset deleted)
          (λ left_deleted. delete_range_internal fuel j (root_snapshot r) a b next left_deleted) _ _
          here.2 (ih h i l a b offset deleted v here.1 (omega arith) le)
          (λ after left_deleted v' right.
            with-text
              (ap (λ k. without k (b - next) (text r)) a'
                ∙ ap (λ k. without ((a - offset) - length (text l)) k (text r)) b')
              (ih after j r a b next left_deleted v' right (omega arith) le))))

-- With fuel for the height of the rope, deleteRangeInternal on a node whose text starts at
-- `offset` returns a node for a rope with the text outside the range.
pub delete_range_internal-Leaves :
    (fuel : ℕ) (h : Heap) (id : ℕ) (t : Rope) (start_pos end_pos offset : ℕ)
    (deleted : List Decoration)
    → Valid h
    → Here h id t
    → height t ≤ fuel
    → start_pos ≤ end_pos
    → Leaves h
        (delete_range_internal fuel id (root_snapshot t) start_pos end_pos offset deleted h)
        (without (start_pos - offset) (end_pos - offset) (text t))
delete_range_internal-Leaves zero h id (leaf bs ds o) a b offset deleted v here tall le =
    absurd (omega arith)
delete_range_internal-Leaves zero h id (node i j l r) a b offset deleted v here tall le =
    absurd (omega arith)
delete_range_internal-Leaves (suc fuel) h id t a b offset deleted v here tall le =
    elim (Bool-cases (apart a b offset (root_snapshot t))) [
      | inl q ↦
          rw (step-apart fuel h id (root_snapshot t) a b offset deleted q)
            (with-text (apart-text t a b offset le q) (unchanged id deleted t v here))
      | inr q ↦
          delete_inside fuel (delete_range_internal-Leaves fuel) h id t a b offset deleted v here
            tall le q
    ]

-- With fuel for the height of the rope, deleteRange from the root returns a node for a rope with
-- the text before and after the range, and every node keeps its view at every version.
pub delete_range-Leaves :
    (fuel : ℕ) (h : Heap) (root : ℕ) (t : Rope) (start_pos len : ℕ)
    → Valid h
    → Here h root t
    → height t ≤ fuel
    → Leaves h
        (delete_range fuel root start_pos len h)
        (take start_pos (text t) ++ drop (start_pos + len) (text t))
unfolding delete_range
delete_range-Leaves fuel h root t start_pos len v here tall = elim (Bool-cases (len == 0)) [
  | inl q ↦
      let none_left : start_pos + len ≡ start_pos = omega (arith, ==→eq len 0 q) in
      rw q (
        with-text
          (sym (take-append-drop start_pos (text t))
            ∙ ap (λ k. take start_pos (text t) ++ drop k (text t)) (sym none_left))
          (unchanged root [] t v here))
  | inr q ↦
      let first : start_pos - 0 ≡ start_pos = omega arith in
      let last : start_pos + len - 0 ≡ start_pos + len = omega arith in
      rw (q, here-view h root t here, or_panic, continue, deref)
        (with-text
          (ap (λ k. take k (text t) ++ drop (start_pos + len - 0) (text t)) first
            ∙ ap (λ k. take start_pos (text t) ++ drop k (text t)) last)
          (delete_range_internal-Leaves fuel h root t start_pos (start_pos + len) 0 [] v here tall
            (omega arith)))
]
