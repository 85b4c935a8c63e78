-- ===== src/Rope/Insert/Leaves.antt =====
-- What insertIntoLeaf builds holds the text and the marks of its pieces, in one, two or three
-- leaves.
use garland.Base.{
  subst, ℕ, ◌+◌, ◌-◌, ◌*◌, ◌/◌, ◌≡◌, refl, ap, sym, true, false, List, [], ◌∷◌, ◌++◌, map, take,
  drop, length, ltb, leb, arith, inl, inr, Bool-cases, take-append-drop, none, append-nil,
  append_assoc, length-append, ltb→ge, length-take,
}
use garland.Result.{Result}
use garland.Address.{Decoration}
use garland.Utf8.{walk_back}
use garland.Utf8.Align.{walk_back-le}
use garland.Node.Marks.{moved, total, SameMarks, total-append, total-map, total-ext}
use garland.Heap.{Heap, M, add_leaf, concatenate}
use garland.Heap.Views.{Valid, Grows-trans}
use garland.Heap.Queue.{queued-Makes}
use garland.Heap.Represents.{
  Rope, leaf, node, text, marks, Here-Grows, Makes, Makes-bind, Makes-return, Makes-join,
  add_leaf-Makes, concatenate-Makes,
}
use garland.Rope.Insert.{
  Pieces, add_marked_leaf, combined, combined_decs, insert_two, insert_three, build_pieces,
  marks_before, marks_from, has_part, or_no_node,
}

-- Nothing is lost when the last concatenate succeeds.
Makes-or_no_node :
    {h : Heap} {out : Result ℕ × Heap} {t : Rope} → Makes h out t → Makes h (or_no_node out) t
Makes-or_no_node {h} {out} {t} p =
    subst (λ o. Makes h (or_no_node o) t) (sym p.returns) (subst (λ o. Makes h o t) p.returns p)

pub add_marked_leaf-Makes :
    (h : Heap) (bs : List ℕ) (decs : List Decoration) (offset : ℕ)
    → Valid h
    → Makes h (add_marked_leaf bs decs offset h) (leaf bs decs none)
unfolding add_marked_leaf
add_marked_leaf-Makes h bs decs offset v =
    queued-Makes (add_leaf bs decs none) offset decs (add_leaf-Makes h bs decs none v)

-- An operation that made a rope of the pieces.
pub record Built (h : Heap) (out : Result ℕ × Heap) (p : Pieces) : Type 0 where
  pub rope : Rope
  pub makes : Makes h out rope
  pub same_text : text rope ≡ combined p
  pub same_marks : SameMarks (marks rope) (combined_decs p)

-- Marks cut in two and put together again.
marks_cut :
    (w : Decoration → ℕ) (at : ℕ) (ds : List Decoration)
    → total w (marks_before at ds) + total (λ d. w (moved at d)) (marks_from at ds) ≡ total w ds
unfolding marks_before marks_from
marks_cut w at [] = refl
marks_cut w at (d ∷ ds) = elim (Bool-cases (ltb d.position at)) [
  | inl b ↦ rw b (omega (arith, marks_cut w at ds))
  | inr b ↦
      let back : w (record d { position = d.position - at + at }) ≡ w d =
        ap (λ k. w (record d { position = k })) (omega (arith, ltb→ge d.position at b)) in
      rw b (omega (arith, marks_cut w at ds, back))
]

module _ (h : Heap) (p : Pieces) (offset : ℕ) (v : Valid h) where
  Built-one : Built h (add_marked_leaf (combined p) (combined_decs p) offset h) p
  Built-one = record {
    rope = leaf (combined p) (combined_decs p) none;
    makes = add_marked_leaf-Makes h (combined p) (combined_decs p) offset v;
    same_text = refl;
    same_marks = λ w. refl;
  }

  cut_middle : ℕ
  cut_middle = walk_back (combined p) (length (combined p) / 2)

  length-take_cut : length (take cut_middle (combined p)) ≡ cut_middle
  unfolding cut_middle
  length-take_cut = omega (
    arith,
    length-take (walk_back (combined p) (length (combined p) / 2)) (combined p),
    walk_back-le (combined p) (length (combined p) / 2),
  )

  marks-two :
      (w : Decoration → ℕ)
      → total w (
          marks_before cut_middle (combined_decs p)
          ++ map
              (moved (length (take cut_middle (combined p))))
              (marks_from cut_middle (combined_decs p)))
        ≡ total w (combined_decs p)
  marks-two w = rw length-take_cut (
      omega (
        arith,
        total-append w (marks_before cut_middle (combined_decs p))
            (map (moved cut_middle) (marks_from cut_middle (combined_decs p))),
        total-map w (moved cut_middle) (marks_from cut_middle (combined_decs p)),
        marks_cut w cut_middle (combined_decs p),
      ))

  Built-two : Built h (insert_two p offset h) p
  unfolding insert_two cut_middle
  Built-two =
      let bytes : List ℕ = combined p in
      let at : ℕ = walk_back bytes (length bytes / 2) in
      let decs : List Decoration = combined_decs p in
      let a = add_marked_leaf-Makes h (take at bytes) (marks_before at decs) offset v in
      let b =
        add_marked_leaf-Makes a.after (drop at bytes) (marks_from at decs) (offset + at) a.valid in
      record {
        rope =
            node a.id b.id (leaf (take at bytes) (marks_before at decs) none)
              (leaf (drop at bytes) (marks_from at decs) none);
        makes = Makes-bind (add_marked_leaf (take at bytes) (marks_before at decs) offset) _ a (
            Makes-join (add_marked_leaf (drop at bytes) (marks_from at decs) (offset + at)) b a.id
              a.here);
        same_text = take-append-drop at bytes;
        same_marks = λ w. marks-two w;
      }

no_part : (bs : List ℕ) (ds : List Decoration) → has_part bs ds ≡ false → (bs ≡ []) × (ds ≡ [])
no_part [] [] e = (refl, refl)
no_part [] (d ∷ ds) e = absurd (ground arith)
no_part (b ∷ bs) [] e = absurd (ground arith)
no_part (b ∷ bs) (d ∷ ds) e = absurd (ground arith)

pub total-combined :
    (w : Decoration → ℕ) (p : Pieces)
    → total w (combined_decs p)
      ≡ total w p.left_decs
        + total (λ d. w (moved (length p.left) d)) p.middle_decs
        + total (λ d. w (moved (length p.left + length p.middle) d)) p.right_decs
total-combined w p =
    let middle : List Decoration = map (moved (length p.left)) p.middle_decs in
    let right : List Decoration = map (moved (length p.left + length p.middle)) p.right_decs in
    omega (
      arith,
      total-append w p.left_decs (middle ++ right),
      total-append w middle right,
      total-map w (moved (length p.left)) p.middle_decs,
      total-map w (moved (length p.left + length p.middle)) p.right_decs,
    )

total-moved_zero :
    (w : Decoration → ℕ) (ds : List Decoration) → total (λ d. w (moved 0 d)) ds ≡ total w ds
total-moved_zero w ds =
    total-ext (λ d. w (moved 0 d)) w ds
      (λ d. ap (λ (k : ℕ). w (record d { position = k })) (omega arith))

module _ (h : Heap) (p : Pieces) (offset : ℕ) (v : Valid h) where
  open p use {left, middle, right, left_decs, middle_decs, right_decs}

  left_leaf : M ℕ
  left_leaf = add_marked_leaf left left_decs offset

  middle_leaf : M ℕ
  middle_leaf = add_marked_leaf middle middle_decs (offset + length left)

  right_leaf : M ℕ
  right_leaf = add_marked_leaf right right_decs (offset + length left + length middle)

  middle_makes : (g : Heap) → Valid g → Makes g (middle_leaf g) (leaf middle middle_decs none)
  unfolding middle_leaf
  middle_makes g = add_marked_leaf-Makes g middle middle_decs (offset + length left)

  right_makes : (g : Heap) → Valid g → Makes g (right_leaf g) (leaf right right_decs none)
  unfolding right_leaf
  right_makes g = add_marked_leaf-Makes g right right_decs (offset + length left + length middle)

  marks-all :
      (w : Decoration → ℕ)
      → total w (
          (left_decs ++ map (moved (length left)) middle_decs)
          ++ map (moved (length (left ++ middle))) right_decs)
        ≡ total w (combined_decs p)
  marks-all w =
      let front : List Decoration = map (moved (length left)) middle_decs in
      rw (length-append left middle) (
        omega (
          arith,
          total-combined w p,
          total-append w (left_decs ++ front)
              (map (moved (length left + length middle)) right_decs),
          total-append w left_decs front,
          total-map w (moved (length left)) middle_decs,
          total-map w (moved (length left + length middle)) right_decs,
        ))

  marks-left_middle :
      (w : Decoration → ℕ)
      → right_decs ≡ []
      → total w (left_decs ++ map (moved (length left)) middle_decs) ≡ total w (combined_decs p)
  marks-left_middle w none_right = omega (
    arith,
    total-combined w p,
    total-append w left_decs (map (moved (length left)) middle_decs),
    total-map w (moved (length left)) middle_decs,
    ap (total (λ d. w (moved (length left + length middle) d))) none_right,
  )

  marks-middle_right :
      (w : Decoration → ℕ)
      → left ≡ []
      → left_decs ≡ []
      → total w (middle_decs ++ map (moved (length middle)) right_decs) ≡ total w (combined_decs p)
  marks-middle_right w no_left none_left =
      let size : length left ≡ 0 = ap length no_left in
      let behind : length left + length middle ≡ length middle = omega arith in
      omega (
        arith,
        total-combined w p,
        total-append w middle_decs (map (moved (length middle)) right_decs),
        total-map w (moved (length middle)) right_decs,
        total-moved_zero w middle_decs,
        ap (total w) none_left,
        ap (λ k. total (λ d. w (moved k d)) middle_decs) size,
        ap (λ k. total (λ d. w (moved k d)) right_decs) behind,
      )

  marks-middle :
      (w : Decoration → ℕ)
      → left ≡ []
      → left_decs ≡ []
      → right_decs ≡ []
      → total w middle_decs ≡ total w (combined_decs p)
  marks-middle w no_left none_left none_right = omega (
    arith,
    total-combined w p,
    total-moved_zero w middle_decs,
    ap (total w) none_left,
    ap (λ k. total (λ d. w (moved k d)) middle_decs) (ap length no_left),
    ap (total (λ d. w (moved (length left + length middle) d))) none_right,
  )

  Built-all :
      has_part left left_decs ≡ true
      → has_part right right_decs ≡ true
      → Built h (insert_three p offset h) p
  unfolding insert_three left_leaf middle_leaf right_leaf
  Built-all has_left has_right =
      let a = add_marked_leaf-Makes h left left_decs offset v in
      let b = middle_makes a.after a.valid in
      let c = right_makes b.after b.valid in
      let left_here =
        Here-Grows (Grows-trans b.grows c.grows) a.id (leaf left left_decs none) a.here in
      let middle_here = Here-Grows c.grows b.id (leaf middle middle_decs none) b.here in
      let d =
        concatenate-Makes c.after a.id b.id (leaf left left_decs none)
          (leaf middle middle_decs none) c.valid left_here middle_here in
      record {
        rope =
            node d.id c.id
              (node a.id b.id (leaf left left_decs none) (leaf middle middle_decs none))
              (leaf right right_decs none);
        makes =
            rw (has_left, has_right)
              (Makes-bind left_leaf _ a (
                Makes-bind middle_leaf _ b (
                  Makes-bind right_leaf _ c (
                    Makes-bind (concatenate a.id b.id) _ d (
                      Makes-or_no_node (
                        concatenate-Makes d.after d.id c.id _ _ d.valid d.here
                          (Here-Grows d.grows c.id (leaf right right_decs none) c.here)))))));
        same_text = append_assoc left middle right;
        same_marks = λ w. marks-all w;
      }

  Built-left_middle :
      has_part left left_decs ≡ true
      → has_part right right_decs ≡ false
      → Built h (insert_three p offset h) p
  unfolding insert_three left_leaf middle_leaf right_leaf
  Built-left_middle has_left has_right =
      let a = add_marked_leaf-Makes h left left_decs offset v in
      let b = middle_makes a.after a.valid in
      let gone = no_part right right_decs has_right in
      record {
        rope = node a.id b.id (leaf left left_decs none) (leaf middle middle_decs none);
        makes =
            rw (has_left, has_right)
              (Makes-bind left_leaf _ a (Makes-join middle_leaf b a.id a.here));
        same_text = ap (left ++◌) (rw gone.0 (sym (append-nil middle)));
        same_marks = λ w. marks-left_middle w gone.1;
      }

  Built-middle_right :
      has_part left left_decs ≡ false
      → has_part right right_decs ≡ true
      → Built h (insert_three p offset h) p
  unfolding insert_three left_leaf middle_leaf right_leaf
  Built-middle_right has_left has_right =
      let b = middle_makes h v in
      let c = right_makes b.after b.valid in
      let gone = no_part left left_decs has_left in
      record {
        rope = node b.id c.id (leaf middle middle_decs none) (leaf right right_decs none);
        makes =
            rw (has_left, has_right)
              (Makes-bind middle_leaf _ b (Makes-join right_leaf c b.id b.here));
        same_text = rw gone.0;
        same_marks = λ w. marks-middle_right w gone.0 gone.1;
      }

  Built-middle :
      has_part left left_decs ≡ false
      → has_part right right_decs ≡ false
      → Built h (insert_three p offset h) p
  unfolding insert_three left_leaf middle_leaf right_leaf
  Built-middle has_left has_right =
      let b = middle_makes h v in
      let gone = no_part left left_decs has_left in
      let none_right = no_part right right_decs has_right in
      record {
        rope = leaf middle middle_decs none;
        makes =
            rw (has_left, has_right)
              (Makes-bind middle_leaf _ b (Makes-return b.id b.valid b.here));
        same_text = rw (gone.0, none_right.0) (sym (append-nil middle));
        same_marks = λ w. marks-middle w gone.0 gone.1 none_right.1;
      }

  -- Every branch of insertIntoLeaf builds a rope of the pieces.
  pub build_pieces-Built : Built h (build_pieces p offset h) p
  unfolding build_pieces
  build_pieces-Built = elim (Bool-cases (leb (length (combined p)) h.max_leaf_size)) [
    | inl one ↦ rw one (Built-one h p offset v)
    | inr more ↦ elim (Bool-cases (leb (length (combined p)) (2 * h.max_leaf_size))) [
      | inl two ↦ rw (more, two) (Built-two h p offset v)
      | inr three ↦
          rw (more, three)
            (elim (Bool-cases (has_part left left_decs)) [
              | inl l ↦ elim (Bool-cases (has_part right right_decs)) [
                | inl r ↦ Built-all l r
                | inr r ↦ Built-left_middle l r
              ]
              | inr l ↦ elim (Bool-cases (has_part right right_decs)) [
                | inl r ↦ Built-middle_right l r
                | inr r ↦ Built-middle l r
              ]
            ])
    ]
  ]
