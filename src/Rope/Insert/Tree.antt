-- ===== src/Rope/Insert/Tree.antt =====
-- The descent of insertInternal: the text and the marks of the rope that it returns.
use garland.Base.{
  ℕ, zero, suc, ◌+◌, ◌-◌, ◌≤◌, min, ◌≡◌, refl, ap, subst, ◌∙◌, Bool, true, false, ◌&&◌, ◌||◌, List,
  ◌++◌, map, take, drop, length, ltb, ◌==◌, arith, inl, inr, Bool-cases, Option, some, length-take,
  length-append, append_assoc, take-append_left, take-append_right, length-drop, drop-append_left,
  drop-append_right,
}
use garland.Result.{Result}
use garland.Address.{Decoration, RelativeDecoration}
use garland.Node.{Snapshot, create_leaf_snapshot, create_internal_snapshot, partition_decorations}
use garland.Node.Marks.{
  moved, slide, total, Within, total-append, total-map, total-ext, total-ext_Within,
  partition_decorations-slide,
}
use garland.Heap.{Heap, M, ◌>>=◌, continue, current, concatenate}
use garland.Heap.Views.{Valid}
use garland.Heap.Represents.{
  Rope, leaf, node, text, marks, height, InLeaves, InLeaves-Within, root_snapshot,
  byte_count-root_snapshot, Here, Represents-view, Makes, Makes-join, Makes-join_right,
}
use garland.Rope.Insert.{
  Pieces, pieces, absolute, combined, combined_decs, insert_into_leaf, insert_internal,
}
use garland.Rope.Insert.Leaves.{build_pieces-Built, total-combined}

module _ (bytes : List ℕ) (decs : List RelativeDecoration) (insert_before : Bool) where
  -- The marks behind an insertion at `at`: those that were there, slid, and those that came.
  abbrev pub inserted_total : (Decoration → ℕ) → ℕ → List Decoration → ℕ
  inserted_total w at ds =
      total (λ d. w (slide at (length bytes) insert_before d)) ds
      + total (λ d. w (moved at d)) (absolute decs)

  -- An operation that made a rope with `bytes` inserted at `at`.
  pub record Inserted (h : Heap) (out : Result ℕ × Heap) (t : Rope) (at : ℕ) : Type 0 where
    pub rope : Rope
    pub makes : Makes h out rope
    pub same_text : text rope ≡ take at (text t) ++ (bytes ++ drop at (text t))
    pub same_marks : (w : Decoration → ℕ) → total w (marks rope) ≡ inserted_total w at (marks t)

  cut_pieces : List ℕ → List Decoration → ℕ → Pieces
  cut_pieces bs ds at =
      let parts = partition_decorations ds at insert_before in
      record {
        left = take at bs;
        middle = bytes;
        right = drop at bs;
        left_decs = parts.left;
        middle_decs = absolute decs ++ parts.boundary;
        right_decs = parts.right;
      }

  -- A position within the leaf is not clamped.
  pieces-within :
      (bs : List ℕ) (ds : List Decoration) (offset : Option ℕ) (at : ℕ)
      → at ≤ length bs
      → pieces (create_leaf_snapshot bs ds offset) at bytes decs insert_before ≡ cut_pieces bs ds at
  unfolding pieces create_leaf_snapshot cut_pieces
  pieces-within bs ds offset at le =
      let same : min at (length bs) ≡ at = omega arith in ap (cut_pieces bs ds) same

  total-cut :
      (w : Decoration → ℕ) (bs : List ℕ) (ds : List Decoration) (at : ℕ)
      → at ≤ length bs
      → total w (combined_decs (cut_pieces bs ds at)) ≡ inserted_total w at ds
  unfolding cut_pieces
  total-cut w bs ds at le =
      let parts = partition_decorations ds at insert_before in
      let size : length (take at bs) ≡ at = omega (arith, length-take at bs) in
      omega (
        arith,
        total-combined w (cut_pieces bs ds at),
        ap (λ k. total (λ d. w (moved k d)) (absolute decs ++ parts.boundary)) size,
        ap (λ k. total (λ d. w (moved (k + length bytes) d)) parts.right) size,
        total-append (λ d. w (moved at d)) (absolute decs) parts.boundary,
        partition_decorations-slide w (length bytes) ds at insert_before,
      )

  total-pieces :
      (w : Decoration → ℕ) (bs : List ℕ) (ds : List Decoration) (offset : Option ℕ) (at : ℕ)
      → at ≤ length bs
      → total w
          (combined_decs (pieces (create_leaf_snapshot bs ds offset) at bytes decs insert_before))
        ≡ inserted_total w at ds
  total-pieces w bs ds offset at le =
      rw (pieces-within bs ds offset at le) (total-cut w bs ds at le)

  insert_into_leaf-Inserted :
      (h : Heap) (bs : List ℕ) (ds : List Decoration) (o : Option ℕ) (at offset : ℕ)
      → Valid h
      → at ≤ length bs
      → Inserted h
          (insert_into_leaf (create_leaf_snapshot bs ds o) at offset bytes decs insert_before h)
          (leaf bs ds o)
          at
  unfolding insert_into_leaf cut_pieces
  insert_into_leaf-Inserted h bs ds o at offset v le =
      let p : Pieces = pieces (create_leaf_snapshot bs ds o) at bytes decs insert_before in
      let b = build_pieces-Built h p offset v in
      record {
        rope = b.rope;
        makes = b.makes;
        same_text = b.same_text ∙ ap (λ (q : Pieces). combined q) (pieces-within bs ds o at le);
        same_marks = λ w. b.same_marks w ∙ total-pieces w bs ds o at le;
      }

  abbrev goes_left : ℕ → ℕ → Bool
  goes_left pos left_end = ltb pos left_end || ((pos == left_end) && insert_before)

  goes_left-offset :
      (pos offset : ℕ) (bs : List ℕ) (n : ℕ)
      → offset ≤ pos
      → n ≡ length bs
      → goes_left pos (offset + n) ≡ goes_left (pos - offset) (length bs)
  goes_left-offset pos offset bs n le e = rw e (ground arith)

  step-leaf :
      (fuel : ℕ) (h : Heap) (bs : List ℕ) (ds : List Decoration) (o : Option ℕ) (pos offset : ℕ)
      → insert_internal
          (suc fuel)
          (create_leaf_snapshot bs ds o)
          pos
          offset
          bytes
          decs
          insert_before
          h
        ≡ insert_into_leaf
            (create_leaf_snapshot bs ds o)
            (pos - offset)
            offset
            bytes
            decs
            insert_before
            h
  unfolding insert_internal create_leaf_snapshot
  step-leaf fuel h bs ds o pos offset = refl

  step-left :
      (fuel : ℕ) (h : Heap) (i j : ℕ) (l r : Snapshot) (pos offset : ℕ)
      → current h i ≡ some l
      → goes_left pos (offset + l.byte_count) ≡ true
      → insert_internal
          (suc fuel)
          (create_internal_snapshot i j l r)
          pos
          offset
          bytes
          decs
          insert_before
          h
        ≡ (insert_internal fuel l pos offset bytes decs insert_before >>= λ new_left.
              concatenate new_left j)
            h
  unfolding insert_internal create_internal_snapshot
  step-left fuel h i j l r pos offset e q = rw (e, continue, q)

  step-right :
      (fuel : ℕ) (h : Heap) (i j : ℕ) (l r : Snapshot) (pos offset : ℕ)
      → current h i ≡ some l
      → current h j ≡ some r
      → goes_left pos (offset + l.byte_count) ≡ false
      → insert_internal
          (suc fuel)
          (create_internal_snapshot i j l r)
          pos
          offset
          bytes
          decs
          insert_before
          h
        ≡ (insert_internal fuel r pos (offset + l.byte_count) bytes decs insert_before
              >>= λ new_right. concatenate i new_right)
            h
  unfolding insert_internal create_internal_snapshot
  step-right fuel h i j l r pos offset e e' q = rw (e, continue, q, e')

  -- At an inner node the marks of the other side move with its text, or stay.
  slide-moved :
      (w : Decoration → ℕ) (at size : ℕ) (d : Decoration)
      → size ≤ at
      → w (moved size (slide (at - size) (length bytes) insert_before d))
        ≡ w (slide at (length bytes) insert_before (moved size d))
  slide-moved w at size d le = ap w (ground arith)

  total-left :
      (w : Decoration → ℕ) (at size : ℕ) (ds : List Decoration)
      → goes_left at size ≡ true
      → total (λ d. w (moved (size + length bytes) d)) ds
        ≡ total (λ d. w (slide at (length bytes) insert_before (moved size d))) ds
  total-left w at size ds q = total-ext _ _ ds (λ d. ap w (ground arith))

  total-right :
      (w : Decoration → ℕ) (at size : ℕ) (ds : List Decoration)
      → goes_left at size ≡ false
      → Within size ds
      → total w ds ≡ total (λ d. w (slide at (length bytes) insert_before d)) ds
  total-right w at size ds q h = total-ext_Within w _ size ds h (λ d le. ap w (ground arith))

  marks-left :
      (w : Decoration → ℕ) (at : ℕ) (l l' r : Rope)
      → goes_left at (length (text l)) ≡ true
      → length (text l') ≡ length (text l) + length bytes
      → total w (marks l') ≡ inserted_total w at (marks l)
      → total w (marks l' ++ map (moved (length (text l'))) (marks r))
        ≡ inserted_total w at (marks l ++ map (moved (length (text l))) (marks r))
  marks-left w at l l' r q size ih =
      let u = λ (d : Decoration). w (slide at (length bytes) insert_before d) in
      rw size (
        omega (
          arith,
          ih,
          total-append w (marks l') (map (moved (length (text l) + length bytes)) (marks r)),
          total-map w (moved (length (text l) + length bytes)) (marks r),
          total-append u (marks l) (map (moved (length (text l))) (marks r)),
          total-map u (moved (length (text l))) (marks r),
          total-left w at (length (text l)) (marks r) q,
        ))

  marks-right :
      (w : Decoration → ℕ) (at : ℕ) (l r r' : Rope)
      → goes_left at (length (text l)) ≡ false
      → length (text l) ≤ at
      → InLeaves l
      → total (λ d. w (moved (length (text l)) d)) (marks r')
        ≡ inserted_total (λ d. w (moved (length (text l)) d)) (at - length (text l)) (marks r)
      → total w (marks l ++ map (moved (length (text l))) (marks r'))
        ≡ inserted_total w at (marks l ++ map (moved (length (text l))) (marks r))
  marks-right w at l r r' q le inside ih =
      let size : ℕ = length (text l) in
      let u = λ (d : Decoration). w (slide at (length bytes) insert_before d) in
      let came : total (λ d. w (moved size (moved (at - size) d))) (absolute decs)
          ≡ total (λ d. w (moved at d)) (absolute decs) =
        total-ext _ _ (absolute decs) (λ d. ap w (ground arith)) in
      omega (
        arith,
        ih,
        came,
        total-append w (marks l) (map (moved size) (marks r')),
        total-map w (moved size) (marks r'),
        total-append u (marks l) (map (moved size) (marks r)),
        total-map u (moved size) (marks r),
        total-right w at size (marks l) q (InLeaves-Within l inside),
        total-ext _ _ (marks r) (λ d. slide-moved w at size d le),
      )

  length-inserted :
      (at : ℕ) (bs : List ℕ)
      → at ≤ length bs
      → length (take at bs ++ (bytes ++ drop at bs)) ≡ length bs + length bytes
  length-inserted at bs le = omega (
    arith,
    length-append (take at bs) (bytes ++ drop at bs),
    length-append bytes (drop at bs),
    length-take at bs,
    length-drop at bs,
  )

  text-left :
      (at : ℕ) (xs ys : List ℕ)
      → at ≤ length xs
      → (take at xs ++ (bytes ++ drop at xs)) ++ ys
        ≡ take at (xs ++ ys) ++ (bytes ++ drop at (xs ++ ys))
  text-left at xs ys le =
      rw (take-append_left at xs ys le, drop-append_left at xs ys le) (simp append_assoc)

  text-right :
      (at : ℕ) (xs ys : List ℕ)
      → length xs ≤ at
      → xs ++ (take (at - length xs) ys ++ (bytes ++ drop (at - length xs) ys))
        ≡ take at (xs ++ ys) ++ (bytes ++ drop at (xs ++ ys))
  text-right at xs ys le =
      rw (take-append_right at xs ys le, drop-append_right at xs ys le) (simp append_assoc)

  -- A step into the left child, and one into the right child.
  Inserted-left :
      {h : Heap} (m : M ℕ) (i j : ℕ) (l r : Rope) (at : ℕ)
      → Here h j r
      → at ≤ length (text l)
      → goes_left at (length (text l)) ≡ true
      → Inserted h (m h) l at
      → Inserted h ((m >>= λ new_left. concatenate new_left j) h) (node i j l r) at
  Inserted-left m i j l r at here le q p = record {
    rope = node p.makes.id j p.rope r;
    makes = Makes-join_right m p.makes j here;
    same_text = ap (λ t. t ++ text r) p.same_text ∙ text-left at (text l) (text r) le;
    same_marks = λ w.
        marks-left w at l p.rope r q (ap length p.same_text ∙ length-inserted at (text l) le)
          (p.same_marks w);
  }

  Inserted-right :
      {h : Heap} (m : M ℕ) (i j : ℕ) (l r : Rope) (at : ℕ)
      → Here h i l
      → InLeaves l
      → length (text l) ≤ at
      → goes_left at (length (text l)) ≡ false
      → Inserted h (m h) r (at - length (text l))
      → Inserted h ((m >>= λ new_right. concatenate i new_right) h) (node i j l r) at
  Inserted-right m i j l r at here inside le q p = record {
    rope = node i p.makes.id l p.rope;
    makes = Makes-join m p.makes i here;
    same_text = ap (text l ++◌) p.same_text ∙ text-right at (text l) (text r) le;
    same_marks = λ w.
        marks-right w at l r p.rope q le inside (p.same_marks (λ d. w (moved (length (text l)) d)));
  }

  -- With fuel for the height of a rope whose marks lie within their leaves, insertInternal at a
  -- position within the text returns a node for the rope with the content inserted: the text
  -- before, the new bytes, the text behind; every mark once, moved past the content where the
  -- position and the flag say so; and every node keeps its view at every version.
  pub insert_internal-Inserted :
      (fuel : ℕ) (h : Heap) (id : ℕ) (t : Rope) (pos offset : ℕ)
      → Valid h
      → Here h id t
      → InLeaves t
      → height t ≤ fuel
      → offset ≤ pos
      → pos - offset ≤ length (text t)
      → Inserted h
          (insert_internal fuel (root_snapshot t) pos offset bytes decs insert_before h)
          t
          (pos - offset)
  unfolding root_snapshot
  insert_internal-Inserted zero h id (leaf bs ds o) pos offset v here inside tall above within =
      absurd (omega arith)
  insert_internal-Inserted zero h id (node i j l r) pos offset v here inside tall above within =
      absurd (omega arith)
  insert_internal-Inserted (suc fuel) h id (leaf bs ds o) pos offset v here inside tall above
        within =
      rw (step-leaf fuel h bs ds o pos offset)
        (insert_into_leaf-Inserted h bs ds o (pos - offset) offset v within)
  insert_internal-Inserted (suc fuel) h id (node i j l r) pos offset v here inside tall above
        within =
      let at : ℕ = pos - offset in
      let size : ℕ = length (text l) in
      let l_view = Represents-view h h.current_fork h.current_revision i l here.1 in
      let r_view = Represents-view h h.current_fork h.current_revision j r here.2 in
      let side : goes_left pos (offset + (root_snapshot l).byte_count) ≡ goes_left at size =
        goes_left-offset pos offset (text l) _ above (byte_count-root_snapshot l) in
      elim (Bool-cases (goes_left at size)) [
        | inl q ↦
            rw
              (step-left fuel h i j (root_snapshot l) (root_snapshot r) pos offset l_view
                (side ∙ q))
              (Inserted-left
                (insert_internal fuel (root_snapshot l) pos offset bytes decs insert_before) i j l r
                at here.2 (ground arith) q
                (insert_internal-Inserted fuel h i l pos offset v here.1 inside.0 (omega arith)
                  above (ground arith)))
        | inr q ↦
            let next : ℕ = offset + (root_snapshot l).byte_count in
            let place : pos - next ≡ at - size = omega (arith, byte_count-root_snapshot l) in
            let le : size ≤ at = ground arith in
            rw
              (step-right fuel h i j (root_snapshot l) (root_snapshot r) pos offset l_view r_view
                (side ∙ q))
              (Inserted-right
                (insert_internal fuel (root_snapshot r) pos next bytes decs insert_before) i j l r
                at here.1 inside.0 le q
                (subst
                  (λ k.
                    Inserted h
                      (insert_internal fuel (root_snapshot r) pos next bytes decs insert_before h) r
                      k)
                  place
                  (insert_internal-Inserted fuel h j r pos next v here.2 inside.1 (omega arith)
                    (omega (arith, byte_count-root_snapshot l))
                    (omega (arith, byte_count-root_snapshot l, length-append (text l) (text r))))))
      ]
