-- ===== src/Rope/Insert.antt =====
-- insertInternal and insertIntoLeaf (tree.go). `fuel` bounds the depth of the descent.
pub mod Leaves
pub mod Tree
use garland.Base.{
  ℕ, zero, suc, ◌+◌, ◌-◌, ◌*◌, ◌/◌, Bool, true, false, ◌&&◌, ◌||◌, not, List, [], ◌∷◌, ◌++◌, map,
  take, drop, length, ltb, leb, ◌==◌, if◌then◌else◌, Option, none, some, min,
}
use garland.Result.{Result, ok, err, invalid_position, out_of_fuel}
use garland.Address.{Decoration, RelativeDecoration}
use garland.Utf8.{walk_back}
use garland.Node.{Snapshot, Parts, partition_decorations}
use garland.Node.Marks.{moved}
use garland.Heap.{
  Heap, M, ◌>>=◌, return, fail, current, child, add_leaf, queue_updates, concatenate,
}

-- The marks that come with inserted content.
abbrev pub absolute : List RelativeDecoration → List Decoration
absolute = map (λ d. record { key = d.key; position = d.position })

-- The marks of the first of two leaves that are cut at `at`, and those of the second.
unfoldable pub marks_before : ℕ → List Decoration → List Decoration
marks_before at [] = []
marks_before at (d ∷ ds) = if ltb d.position at then d ∷ marks_before at ds else marks_before at ds

unfoldable pub marks_from : ℕ → List Decoration → List Decoration
marks_from at [] = []
marks_from at (d ∷ ds) =
    if ltb d.position at
    then marks_from at ds
    else record d { position = d.position - at } ∷ marks_from at ds

-- A new leaf whose marks are queued for the cache.
unfoldable pub add_marked_leaf : List ℕ → List Decoration → ℕ → M ℕ
unfolding queue_updates
add_marked_leaf bytes decs offset =
    add_leaf bytes decs none >>= λ id. λ h. (ok id, queue_updates id offset decs h)

-- Is there anything to put into a left or right leaf?
abbrev pub has_part : List ℕ → List Decoration → Bool
has_part bytes decs = ltb 0 (length bytes) || ltb 0 (length decs)

-- The pieces of an insertion into a leaf.
pub record Pieces : Type 0 where
  pub left : List ℕ
  pub middle : List ℕ
  pub right : List ℕ
  pub left_decs : List Decoration
  pub middle_decs : List Decoration
  pub right_decs : List Decoration

unfoldable pub pieces : Snapshot → ℕ → List ℕ → List RelativeDecoration → Bool → Pieces
pieces snap local_pos bytes decs insert_before =
    let at : ℕ = min local_pos (length snap.content) in
    let parts = partition_decorations snap.decorations at insert_before in
    record {
      left = take at snap.content;
      middle = bytes;
      right = drop at snap.content;
      left_decs = parts.left;
      middle_decs = absolute decs ++ parts.boundary;
      right_decs = parts.right;
    }

-- The text and the marks of the pieces in one leaf.
abbrev pub combined : Pieces → List ℕ
combined p = p.left ++ (p.middle ++ p.right)

abbrev pub combined_decs : Pieces → List Decoration
combined_decs p =
    p.left_decs
    ++ (map (moved (length p.left)) p.middle_decs
        ++ map (moved (length p.left + length p.middle)) p.right_decs)

-- Two balanced leaves, split on a rune boundary.
unfoldable pub insert_two : Pieces → ℕ → M ℕ
unfolding marks_before marks_from add_marked_leaf
insert_two p offset =
    let bytes : List ℕ = combined p in
    let at : ℕ = walk_back bytes (length bytes / 2) in
    add_marked_leaf (take at bytes) (marks_before at (combined_decs p)) offset >>= λ first.
    add_marked_leaf (drop at bytes) (marks_from at (combined_decs p)) (offset + at) >>= λ second.
    concatenate first second

-- The second concatenate of three pieces assigns an `err` that shadows the one that is looked at
-- behind it: when it fails, the result is node 0, with no error.
abbrev pub or_no_node : Result ℕ × Heap → Result ℕ × Heap
or_no_node (ok id, h) = (ok id, h)
or_no_node (err e, h) = (ok 0, h)

-- A leaf for each piece; an empty left or right piece gets none.
unfoldable pub insert_three : Pieces → ℕ → M ℕ
unfolding add_marked_leaf
insert_three p offset =
    if has_part p.left p.left_decs
    then (add_marked_leaf p.left p.left_decs offset >>= λ left.
        add_marked_leaf p.middle p.middle_decs (offset + length p.left) >>= λ middle.
        if has_part p.right p.right_decs
        then (add_marked_leaf p.right p.right_decs (offset + length p.left + length p.middle)
            >>= λ right. concatenate left middle >>= λ left_middle.
                λ h. or_no_node (concatenate left_middle right h))
        else concatenate left middle)
    else (add_marked_leaf p.middle p.middle_decs (offset + length p.left) >>= λ middle.
        if has_part p.right p.right_decs
        then (add_marked_leaf p.right p.right_decs (offset + length p.left + length p.middle)
            >>= λ right. concatenate middle right)
        else return middle)

-- What insertIntoLeaf builds: one leaf, two, or three, by the length of the text.
unfoldable pub build_pieces : Pieces → ℕ → M ℕ
unfolding insert_two insert_three add_marked_leaf
build_pieces p offset h =
    if leb (length (combined p)) h.max_leaf_size
    then add_marked_leaf (combined p) (combined_decs p) offset h
    else if leb (length (combined p)) (2 * h.max_leaf_size)
    then insert_two p offset h
    else insert_three p offset h

-- insertIntoLeaf
unfoldable pub insert_into_leaf : Snapshot → ℕ → ℕ → List ℕ → List RelativeDecoration → Bool → M ℕ
unfolding build_pieces pieces
insert_into_leaf snap local_pos offset bytes decs insert_before =
    build_pieces (pieces snap local_pos bytes decs insert_before) offset

-- insertInternal
unfoldable pub insert_internal :
    ℕ → Snapshot → ℕ → ℕ → List ℕ → List RelativeDecoration → Bool → M ℕ
unfolding insert_into_leaf
insert_internal zero snap pos offset bytes decs insert_before = fail out_of_fuel
insert_internal (suc fuel) snap pos offset bytes decs insert_before = elim snap.is_leaf [
  | true ↦ insert_into_leaf snap (pos - offset) offset bytes decs insert_before
  | false ↦ child snap.left_id >>= λ l.
      let left_end : ℕ = offset + l.byte_count in
      elim (ltb pos left_end || ((pos == left_end) && insert_before)) [
        | true ↦ insert_internal fuel l pos offset bytes decs insert_before >>= λ new_left.
            concatenate new_left snap.right_id
        | false ↦ child snap.right_id >>= λ r.
            insert_internal fuel r pos left_end bytes decs insert_before >>= λ new_right.
            concatenate snap.left_id new_right
      ]
]
