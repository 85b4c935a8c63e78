-- ===== src/Rope/Mark/Rebuild.antt =====
-- What rebuildFromLeaf leaves: the rope with another leaf in the place of one.
use garland.Base.{
  ℕ, zero, suc, ◌+◌, ◌-◌, ◌≤◌, ◌≡◌, refl, ap, ◌∙◌, true, false, List, ◌++◌, length, map, some, ltb,
  arith, Bool-cases, inl, inr, ltb→lt, lt→ltb, ge→ltb, max,
}
use garland.Result.{Result}
use garland.Address.{Decoration}
use garland.Node.{Snapshot, create_leaf_snapshot, create_internal_snapshot}
use garland.Node.Marks.{moved, total, total-append, total-map, total-ext, Within}
use garland.Heap.{Heap, M, ◌>>=◌, continue, current, concatenate}
use garland.Heap.Views.{Valid}
use garland.Heap.Represents.{
  Rope, leaf, node, text, marks, height, InLeaves, root_snapshot, byte_count-root_snapshot, Here,
  Represents-view, Makes, Makes-join, Makes-join_right, Makes-return,
}
use garland.Rope.Delete.{or_panic}
use garland.Rope.Mark.{rebuild_from_leaf_internal}
use garland.Rope.Mark.Found.{Found, behind, found_at, found_at-start}

-- An operation that made a rope with other marks in one leaf.
pub record Swapped (h : Heap) (out : Result ℕ × Heap) (t : Rope) (f : Found) (ds : List Decoration)
    : Type 0 where
  pub rope : Rope
  pub makes : Makes h out rope
  pub same_text : text rope ≡ text t
  pub same_height : height rope ≡ height t
  pub inside : InLeaves rope
  pub new_marks :
      (w : Decoration → ℕ)
      → total w (marks rope) + total (λ d. w (moved f.start d)) f.decs
        ≡ total w (marks t) + total (λ d. w (moved f.start d)) ds

total-node :
    (w : Decoration → ℕ) (i j : ℕ) (l r : Rope)
    → total w (marks (node i j l r))
      ≡ total w (marks l) + total (λ d. w (moved (length (text l)) d)) (marks r)
total-node w i j l r =
    total-append w (marks l) (map (moved (length (text l))) (marks r))
    ∙ ap (total w (marks l) +◌) (total-map w (moved (length (text l))) (marks r))

total-behind :
    (w : Decoration → ℕ) (n k : ℕ) (ds : List Decoration)
    → total (λ d. w (moved n (moved k d))) ds ≡ total (λ d. w (moved (n + k) d)) ds
total-behind w n k ds =
    total-ext _ _ ds (λ d. ap (λ p. w (record { key = d.key; position = p })) (omega arith))

total-unmoved :
    (w : Decoration → ℕ) (ds : List Decoration) → total (λ d. w (moved 0 d)) ds ≡ total w ds
total-unmoved w ds =
    total-ext _ _ ds (λ d. ap (λ p. w (record { key = d.key; position = p })) (omega arith))

module _ (h : Heap) (i j : ℕ) (l r : Rope) (f : Found) (ds : List Decoration) where
  Swapped-left :
      (m : M ℕ)
      → Swapped h (m h) l f ds
      → Here h j r
      → InLeaves r
      → Swapped h ((m >>= λ left. concatenate left j) h) (node i j l r) f ds
  Swapped-left m p right inside = record {
    rope = node p.makes.id j p.rope r;
    makes = Makes-join_right m p.makes j right;
    same_text = ap (λ t. t ++ text r) p.same_text;
    same_height = ap (λ k. suc (max k (height r))) p.same_height;
    inside = (p.inside, inside);
    new_marks = λ w. omega (
      arith,
      total-node w p.makes.id j p.rope r,
      total-node w i j l r,
      p.new_marks w,
      ap (λ t. total (λ d. w (moved (length t) d)) (marks r)) p.same_text,
    );
  }

  Swapped-right :
      (m : M ℕ)
      → Swapped h (m h) r f ds
      → Here h i l
      → InLeaves l
      → Swapped h
          ((m >>= λ right. concatenate i right) h)
          (node i j l r)
          (behind (length (text l)) f)
          ds
  Swapped-right m p left inside = record {
    rope = node i p.makes.id l p.rope;
    makes = Makes-join m p.makes i left;
    same_text = ap (text l ++◌) p.same_text;
    same_height = ap (λ k. suc (max (height l) k)) p.same_height;
    inside = (inside, p.inside);
    new_marks = λ w. omega (
      arith,
      total-node w i p.makes.id l p.rope,
      total-node w i j l r,
      p.new_marks (λ d. w (moved (length (text l)) d)),
      total-behind w (length (text l)) f.start f.decs,
      total-behind w (length (text l)) f.start ds,
    );
  }

module _ (h : Heap) (fuel i j : ℕ) (l r : Snapshot) (target offset new_leaf : ℕ)
    (e : current h i ≡ some l) where
  rebuild-left :
      ltb target (offset + l.byte_count) ≡ true
      → rebuild_from_leaf_internal
          (suc fuel)
          (create_internal_snapshot i j l r)
          target
          offset
          new_leaf
          h
        ≡ (rebuild_from_leaf_internal fuel l target offset new_leaf >>= λ left. concatenate left j)
            h
  unfolding rebuild_from_leaf_internal create_internal_snapshot
  rebuild-left q = rw (rebuild_from_leaf_internal, e, or_panic, continue, q)

  rebuild-right :
      current h j ≡ some r
      → ltb target (offset + l.byte_count) ≡ false
      → rebuild_from_leaf_internal
          (suc fuel)
          (create_internal_snapshot i j l r)
          target
          offset
          new_leaf
          h
        ≡ (rebuild_from_leaf_internal fuel r target (offset + l.byte_count) new_leaf >>= λ right.
              concatenate i right)
            h
  unfolding rebuild_from_leaf_internal create_internal_snapshot
  rebuild-right e' q = rw (rebuild_from_leaf_internal, e, or_panic, continue, q, e')

-- With fuel for the height of the rope, a leaf that was made for the place of the leaf at `pos`
-- gets into that place.
pub rebuild_from_leaf_internal-Swapped :
    (fuel : ℕ) (h : Heap) (id new_leaf : ℕ) (t : Rope) (pos offset : ℕ) (ds : List Decoration)
    → Valid h
    → Here h id t
    → Here h new_leaf (leaf (found_at t pos).bytes ds (found_at t pos).origin)
    → height t ≤ fuel
    → InLeaves t
    → Within (length (found_at t pos).bytes) ds
    → Swapped h
        (rebuild_from_leaf_internal fuel
          (root_snapshot t)
          (offset + (found_at t pos).start)
          offset
          new_leaf
          h)
        t
        (found_at t pos)
        ds
unfolding root_snapshot
rebuild_from_leaf_internal-Swapped zero h id x (leaf bs ds' o) pos offset ds v here new tall inl'
      w =
    absurd (omega arith)
rebuild_from_leaf_internal-Swapped zero h id x (node i j l r) pos offset ds v here new tall inl' w =
    absurd (omega arith)
rebuild_from_leaf_internal-Swapped (suc fuel) h id x (leaf bs ds' o) pos offset ds v here new tall
      inside w =
    unfold rebuild_from_leaf_internal create_leaf_snapshot in
    record {
      rope = leaf bs ds o;
      makes = Makes-return x v new;
      same_text = refl;
      same_height = refl;
      inside = w;
      new_marks = λ u. omega (arith, total-unmoved u ds, total-unmoved u ds');
    }
rebuild_from_leaf_internal-Swapped (suc fuel) h id x (node i j l r) pos offset ds v here new tall
      inside w =
    let l_view = Represents-view h h.current_fork h.current_revision i l here.1 in
    let r_view = Represents-view h h.current_fork h.current_revision j r here.2 in
    let size = byte_count-root_snapshot l in
    elim (Bool-cases (ltb pos (length (text l)))) [
      | inl q ↦
          let before : (found_at l pos).start ≤ pos = omega (arith, found_at-start l pos) in
          let side : ltb (offset + (found_at l pos).start) (offset + (root_snapshot l).byte_count)
              ≡ true =
            lt→ltb _ _ (omega (arith, size, before, ltb→lt _ _ q)) in
          rw
            (
              q,
              rebuild-left h fuel i j (root_snapshot l) (root_snapshot r)
                  (offset + (found_at l pos).start) offset x l_view side,
            )
            (Swapped-left h i j l r (found_at l pos) ds
              (rebuild_from_leaf_internal fuel (root_snapshot l) (offset + (found_at l pos).start)
                offset x)
              (rebuild_from_leaf_internal-Swapped fuel h i x l pos offset ds v here.1 (rw q at new)
                (omega arith) inside.0 (rw q at w))
              here.2 inside.1)
      | inr q ↦
          let f : Found = found_at r (pos - length (text l)) in
          let side : ltb (offset + (length (text l) + f.start))
                (offset + (root_snapshot l).byte_count)
              ≡ false =
            ge→ltb _ _ (omega (arith, size)) in
          let place : offset + (length (text l) + f.start)
              ≡ offset + (root_snapshot l).byte_count + f.start =
            omega (arith, size) in
          rw
            (
              q,
              rebuild-right h fuel i j (root_snapshot l) (root_snapshot r)
                  (offset + (length (text l) + f.start)) offset x l_view r_view side,
              place,
            )
            (Swapped-right h i j l r f ds
              (rebuild_from_leaf_internal fuel (root_snapshot r)
                (offset + (root_snapshot l).byte_count + f.start)
                (offset + (root_snapshot l).byte_count) x)
              (rebuild_from_leaf_internal-Swapped fuel h j x r (pos - length (text l))
                (offset + (root_snapshot l).byte_count) ds v here.2 (rw q at new) (omega arith)
                inside.1 (rw q at w))
              here.1 inside.0)
    ]
