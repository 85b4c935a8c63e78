-- ===== src/Rope/Delete.antt =====
-- deleteRange (tree.go). `fuel` bounds the depth of the descent.
pub mod Text
pub mod Steps
use garland.Base.{
  ℕ, zero, suc, ◌+◌, ◌-◌, Bool, true, false, ◌&&◌, ◌||◌, List, [], ◌∷◌, ◌++◌, take, drop, length,
  ltb, leb, ◌==◌, if◌then◌else◌, Option, none, some, min,
}
use garland.Result.{Result, ok, err, panic, out_of_fuel}
use garland.Address.{Decoration}
use garland.Node.{Snapshot}
use garland.Heap.{Heap, M, ◌>>=◌, return, fail, current, add_leaf, concatenate}

-- A read of a snapshot that the code does not check: nil stops the program.
abbrev pub or_panic : Option Snapshot → Result Snapshot
or_panic none = err panic
or_panic (some s) = ok s

abbrev pub deref : ℕ → M Snapshot
deref id h = (or_panic (current h id), h)

-- The marks of a leaf in the range, with absolute positions.
unfoldable pub deleted_marks : ℕ → ℕ → ℕ → List Decoration → List Decoration
deleted_marks from to start [] = []
deleted_marks from to start (d ∷ ds) =
    if leb from d.position && ltb d.position to
    then record d { position = d.position + start } ∷ deleted_marks from to start ds
    else deleted_marks from to start ds

-- The marks outside it, those behind it moved back.
unfoldable pub kept_marks : ℕ → ℕ → List Decoration → List Decoration
kept_marks from to [] = []
kept_marks from to (d ∷ ds) =
    if ltb d.position from
    then d ∷ kept_marks from to ds
    else if leb to d.position
    then record d { position = d.position - (to - from) } ∷ kept_marks from to ds
    else kept_marks from to ds

-- The leaf that remains.
unfoldable pub delete_in_leaf : Snapshot → ℕ → ℕ → ℕ → List Decoration → M (ℕ × List Decoration)
unfolding deleted_marks kept_marks
delete_in_leaf snap start_pos end_pos offset deleted =
    let from : ℕ = start_pos - offset in
    let to : ℕ = min (end_pos - offset) snap.byte_count in
    add_leaf (take from snap.content ++ drop to snap.content) (kept_marks from to snap.decorations)
      none
    >>= λ id. return (id, deleted ++ deleted_marks from to offset snap.decorations)

abbrev pub is_blank : Snapshot → Bool
is_blank s = (s.byte_count == 0) && (length s.decorations == 0)

-- The end of a step at an inner node: a child with nothing left is dropped.
unfoldable pub join_rest : ℕ → ℕ → List Decoration → M (ℕ × List Decoration)
join_rest left right deleted = deref left >>= λ l. deref right >>= λ r.
    if is_blank l
    then return (right, deleted)
    else if is_blank r
    then return (left, deleted)
    else (concatenate left right >>= λ id. return (id, deleted))

-- deleteRangeInternal; `deleted` is what the pointer argument has gathered.
unfoldable pub delete_range_internal :
    ℕ → ℕ → Snapshot → ℕ → ℕ → ℕ → List Decoration → M (ℕ × List Decoration)
unfolding delete_in_leaf join_rest
delete_range_internal zero id snap start_pos end_pos offset deleted = fail out_of_fuel
delete_range_internal (suc fuel) id snap start_pos end_pos offset deleted =
    elim (leb end_pos offset || leb (offset + snap.byte_count) start_pos) [
      | true ↦ return (id, deleted)
      | false ↦ elim snap.is_leaf [
        | true ↦ delete_in_leaf snap start_pos end_pos offset deleted
        | false ↦ deref snap.left_id >>= λ l. deref snap.right_id >>= λ r.
            delete_range_internal fuel snap.left_id l start_pos end_pos offset deleted
            >>= λ new_left.
                delete_range_internal fuel snap.right_id r start_pos end_pos (offset + l.byte_count)
                  new_left.1
                >>= λ new_right. join_rest new_left.0 new_right.0 new_right.1
      ]
    ]

-- deleteRange, from the root.
unfoldable pub delete_range : ℕ → ℕ → ℕ → ℕ → M (ℕ × List Decoration)
unfolding delete_range_internal
delete_range fuel root start_pos len =
    if len == 0
    then return (root, [])
    else (deref root >>= λ s. delete_range_internal fuel root s start_pos (start_pos + len) 0 [])
