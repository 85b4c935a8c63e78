-- ===== src/Rope/Sound/Insert.antt =====
-- An insertion whose marks lie within the new content keeps the order of the registry.
use garland.Base.{
  ℕ, zero, suc, ◌+◌, ◌-◌, ◌*◌, ◌/◌, ◌≤◌, min, ◌≡◌, Bool, true, false, List, [], ◌∷◌, ◌++◌, map,
  take, drop, length, ltb, leb, ◌==◌, ◌&&◌, ◌||◌, arith, inl, inr, Bool-cases, none, length-append,
  length-take, length-drop, ltb→lt, if◌then◌else◌,
}
use garland.Address.{Decoration, RelativeDecoration}
use garland.Utf8.{walk_back}
use garland.Utf8.Align.{walk_back-le}
use garland.Node.{Snapshot, partition_decorations}
use garland.Node.Marks.{moved, Within, Within-append, Within-mono, Within-moved}
use garland.Heap.{Heap, M, ◌>>=◌, add_leaf, concatenate}
use garland.Heap.Sound.{Sits, Sound, view-Sits}
use garland.Result.{Result, ok, err}
use garland.Heap.Sound.Steps.{
  bind-Sound, child-Sound, add_leaf-Sound, queue_updates-Sound, concatenate-Sound,
}
use garland.Rope.Insert.{
  Pieces, pieces, absolute, combined, combined_decs, add_marked_leaf, marks_before, marks_from,
  has_part, or_no_node, insert_two, insert_three, build_pieces, insert_into_leaf, insert_internal,
}

Within-partition :
    (n at : ℕ) (ds : List Decoration) (insert_before : Bool)
    → at ≤ n
    → Within n ds
    → Within at (partition_decorations ds at insert_before).left
      × Within 0 (partition_decorations ds at insert_before).boundary
      × Within (n - at) (partition_decorations ds at insert_before).right
unfolding partition_decorations
Within-partition n at [] insert_before le w = (tt, tt, tt)
Within-partition n at (d ∷ ds) insert_before le w =
    let ih = Within-partition n at ds insert_before le w.1 in
    elim (Bool-cases (ltb d.position at)) [
      | inl q ↦ rw q ((omega (arith, ltb→lt _ _ q), ih.0), ih.1, ih.2)
      | inr q ↦ elim (Bool-cases ((d.position == at) && (if insert_before then false else true))) [
        | inl q' ↦ rw (q, q') (ih.0, (omega arith, ih.1), ih.2)
        | inr q' ↦ rw (q, q') (ih.0, ih.1, (omega (arith, w.0), ih.2))
      ]
    ]

Within-marks_before : (at : ℕ) (ds : List Decoration) → Within at (marks_before at ds)
unfolding marks_before
Within-marks_before at [] = tt
Within-marks_before at (d ∷ ds) = elim (Bool-cases (ltb d.position at)) [
  | inl q ↦ rw q (omega (arith, ltb→lt _ _ q), Within-marks_before at ds)
  | inr q ↦ rw q (Within-marks_before at ds)
]

Within-marks_from :
    (n at : ℕ) (ds : List Decoration) → Within n ds → Within (n - at) (marks_from at ds)
unfolding marks_from
Within-marks_from n at [] w = tt
Within-marks_from n at (d ∷ ds) w = elim (Bool-cases (ltb d.position at)) [
  | inl q ↦ rw q (Within-marks_from n at ds w.1)
  | inr q ↦ rw q (omega (arith, w.0), Within-marks_from n at ds w.1)
]

-- The marks of each piece lie within it.
record Fits (p : Pieces) : Type 0 where
  left : Within (length p.left) p.left_decs
  middle : Within (length p.middle) p.middle_decs
  right : Within (length p.right) p.right_decs

Fits-combined : (p : Pieces) → Fits p → Within (length (combined p)) (combined_decs p)
Fits-combined p f =
    let size : length (combined p) ≡ length p.left + length p.middle + length p.right =
      omega (arith, length-append p.left (p.middle ++ p.right), length-append p.middle p.right) in
    rw size (
      Within-append _ p.left_decs _ (Within-mono p.left_decs (omega arith) f.left) (
        Within-append _ (map (moved (length p.left)) p.middle_decs) _
          (Within-mono _ (omega arith)
            (Within-moved (length p.middle) (length p.left) p.middle_decs f.middle))
          (Within-moved (length p.right) (length p.left + length p.middle) p.right_decs f.right)))

add_marked_leaf-Sound :
    (h : Heap) (bs : List ℕ) (ds : List Decoration) (offset : ℕ)
    → Sound h
    → Within (length bs) ds
    → Sound (add_marked_leaf bs ds offset h).1
unfolding add_marked_leaf
add_marked_leaf-Sound h bs ds offset v w =
    bind-Sound (add_leaf bs ds none) _ h (add_leaf-Sound h bs ds none v w)
      (λ id g e p. queue_updates-Sound id offset ds p)

-- A marked leaf, and what follows it.
leaf_then-Sound :
    (h : Heap) (bs : List ℕ) (ds : List Decoration) (offset : ℕ) (f : ℕ → M ℕ)
    → Sound h
    → Within (length bs) ds
    → ((id : ℕ) (g : Heap) → Sound g → Sound (f id g).1)
    → Sound ((add_marked_leaf bs ds offset >>= f) h).1
leaf_then-Sound h bs ds offset f v w q =
    bind-Sound (add_marked_leaf bs ds offset) f h (add_marked_leaf-Sound h bs ds offset v w)
      (λ id g e p. q id g p)

concatenate_then-Sound :
    (left right : ℕ) (h : Heap) (f : ℕ → M ℕ)
    → Sound h
    → ((id : ℕ) (g : Heap) → Sound g → Sound (f id g).1)
    → Sound ((concatenate left right >>= f) h).1
concatenate_then-Sound left right h f v q =
    bind-Sound (concatenate left right) f h (concatenate-Sound left right h v)
      (λ id g e p. q id g p)

insert_two-Sound :
    (h : Heap) (p : Pieces) (offset : ℕ) → Sound h → Fits p → Sound (insert_two p offset h).1
unfolding insert_two
insert_two-Sound h p offset v f =
    let bytes : List ℕ = combined p in
    let at : ℕ = walk_back bytes (length bytes / 2) in
    let le : at ≤ length bytes = omega (arith, walk_back-le bytes (length bytes / 2)) in
    let size : length (take at bytes) ≡ at = omega (arith, length-take at bytes) in
    leaf_then-Sound h (take at bytes) (marks_before at (combined_decs p)) offset _ v
      (rw size (Within-marks_before at (combined_decs p)))
      (λ a g v'.
        leaf_then-Sound g (drop at bytes) (marks_from at (combined_decs p)) (offset + at) _ v'
          (rw (length-drop at bytes)
            (Within-marks_from (length bytes) at (combined_decs p) (Fits-combined p f)))
          (λ b g'. concatenate-Sound a b g'))

or_no_node-Sound : (out : Result ℕ × Heap) → Sound out.1 → Sound (or_no_node out).1
or_no_node-Sound (ok id, h) p = p
or_no_node-Sound (err e, h) p = p

insert_three-Sound :
    (h : Heap) (p : Pieces) (offset : ℕ) → Sound h → Fits p → Sound (insert_three p offset h).1
unfolding insert_three
insert_three-Sound h p offset v f = elim (Bool-cases (has_part p.left p.left_decs)) [
  | inl l ↦ elim (Bool-cases (has_part p.right p.right_decs)) [
    | inl r ↦
        rw (l, r)
          (leaf_then-Sound h p.left p.left_decs offset _ v f.left (λ a g v1.
            leaf_then-Sound g p.middle p.middle_decs _ _ v1 f.middle (λ b g' v2.
              leaf_then-Sound g' p.right p.right_decs _ _ v2 f.right (λ c g'' v3.
                concatenate_then-Sound a b g'' _ v3
                  (λ d k v4. or_no_node-Sound _ (concatenate-Sound d c k v4))))))
    | inr r ↦
        rw (l, r)
          (leaf_then-Sound h p.left p.left_decs offset _ v f.left (λ a g v1.
            leaf_then-Sound g p.middle p.middle_decs _ _ v1 f.middle
              (λ b k. concatenate-Sound a b k)))
  ]
  | inr l ↦ elim (Bool-cases (has_part p.right p.right_decs)) [
    | inl r ↦
        rw (l, r)
          (leaf_then-Sound h p.middle p.middle_decs _ _ v f.middle (λ b g v1.
            leaf_then-Sound g p.right p.right_decs _ _ v1 f.right (λ c k. concatenate-Sound b c k)))
    | inr r ↦ rw (l, r) (leaf_then-Sound h p.middle p.middle_decs _ _ v f.middle (λ b g v1. v1))
  ]
]

build_pieces-Sound :
    (h : Heap) (p : Pieces) (offset : ℕ) → Sound h → Fits p → Sound (build_pieces p offset h).1
unfolding build_pieces
build_pieces-Sound h p offset v f = elim (Bool-cases (leb (length (combined p)) h.max_leaf_size)) [
  | inl one ↦
      rw one (add_marked_leaf-Sound h (combined p) (combined_decs p) offset v (Fits-combined p f))
  | inr more ↦ elim (Bool-cases (leb (length (combined p)) (2 * h.max_leaf_size))) [
    | inl two ↦ rw (more, two) (insert_two-Sound h p offset v f)
    | inr three ↦ rw (more, three) (insert_three-Sound h p offset v f)
  ]
]

module _ (bytes : List ℕ) (decs : List RelativeDecoration) (insert_before : Bool)
    (w : Within (length bytes) (absolute decs)) where
  pieces-Fits :
      (snap : Snapshot) (at : ℕ)
      → Within (length snap.content) snap.decorations
      → Fits (pieces snap at bytes decs insert_before)
  unfolding pieces
  pieces-Fits snap at inside =
      let cut : ℕ = min at (length snap.content) in
      let parts =
        Within-partition (length snap.content) cut snap.decorations insert_before (omega arith)
          inside in
      let size : length (take cut snap.content) ≡ cut =
        omega (arith, length-take cut snap.content) in
      record {
        left = rw size parts.0;
        middle = Within-append _ (absolute decs) _ w (Within-mono _ (omega arith) parts.1);
        right = rw (length-drop cut snap.content) parts.2;
      }

  -- An insertion into a snapshot of the registry, whose marks lie within the new content, keeps the
  -- order of the registry: marks lie within their leaves, and parents are numbered above their
  -- children, at all versions; with any fuel, also when it runs out.
  pub insert_internal-Sound :
      (fuel : ℕ) (h : Heap) (id : ℕ) (snap : Snapshot) (pos offset : ℕ)
      → Sound h
      → Sits id snap
      → Sound (insert_internal fuel snap pos offset bytes decs insert_before h).1
  unfolding insert_internal insert_into_leaf
  insert_internal-Sound zero h id snap pos offset v s = v
  insert_internal-Sound (suc fuel) h id snap pos offset v (inl s) =
      rw (s.0, insert_internal)
        (build_pieces-Sound h (pieces snap (pos - offset) bytes decs insert_before) offset v
          (pieces-Fits snap (pos - offset) s.2))
  insert_internal-Sound (suc fuel) h id snap pos offset v (inr s) =
      rw (s.0, insert_internal)
        (child-Sound snap.left_id _ h v (λ l e.
          let l_sits = view-Sits v h.current_fork h.current_revision snap.left_id l e in
          elim (Bool-cases (
            ltb pos (offset + l.byte_count) || ((pos == offset + l.byte_count) && insert_before))) [
              | inl q ↦ rw q (
                  bind-Sound (insert_internal fuel l pos offset bytes decs insert_before) _ h
                    (insert_internal-Sound fuel h snap.left_id l pos offset v l_sits.0)
                    (λ a g e' v'. concatenate-Sound a snap.right_id g v'))
              | inr q ↦ rw q (
                  child-Sound snap.right_id _ h v (λ r e'.
                    let r_sits = view-Sits v h.current_fork h.current_revision snap.right_id r e' in
                    bind-Sound
                      (insert_internal fuel r pos (offset + l.byte_count) bytes decs insert_before)
                      _ h
                      (insert_internal-Sound fuel h snap.right_id r pos (offset + l.byte_count) v
                        r_sits.0)
                      (λ a g e'' v'. concatenate-Sound snap.left_id a g v')))
            ]))
