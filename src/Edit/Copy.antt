-- ===== src/Edit/Copy.antt =====
-- copyBytesAt (garland.go), on a document whose bytes are in memory. `cache` gives the last known
-- offset of a key in the cache of decorations. Copying takes no part in the runs of edits.
pub mod Shows
use garland.Base.{
  ℕ, suc, ◌+◌, ◌-◌, Bool, true, false, not, ◌&&◌, ◌||◌, List, [], ◌∷◌, map, length, ltb, ◌==◌,
  if◌then◌else◌, min, Option,
}
use garland.Result.{Result, ok, err, invalid_position}
use garland.Address.{Decoration, RelativeDecoration}
use garland.Heap.{Heap}
use garland.Rope.Delete.{delete_range}
use garland.Rope.Read.{read_bytes_range_internal}
use garland.Cursor.{Cursor}
use garland.History.{State, ChangeResult, in_transaction, update_counts_from_root, record_mutation}
use garland.Edit.{tracked_all, Document, record_cursor_positions}
use garland.Edit.Delete.{relative}
use garland.Edit.Overwrite.{Report, consolidated, rehome_marks, overwrite_insert, placed_at}

-- The copied bytes in the tree that the destination was taken out of.
unfoldable pub copy_tree :
    (List ℕ → Option ℕ)
    → ℕ
    → List ℕ
    → List RelativeDecoration
    → List Decoration
    → Bool
    → Bool
    → State
    → Result ℕ × State
unfolding overwrite_insert rehome_marks consolidated
copy_tree cache pos bytes decs displaced insert_before seam_before s =
    if length bytes == 0
    then (let s' : State = rehome_marks cache (consolidated [] displaced 0 insert_before) pos s in
        (ok s'.root, s'))
    else overwrite_insert pos bytes (consolidated decs displaced (length bytes) insert_before)
        seam_before s

-- The byte that a cursor of another than the actor goes to.
abbrev moved_to : ℕ → ℕ → ℕ → Bool → ℕ → ℕ → ℕ
moved_to pos len size insert_before total at =
    if ltb (pos + len) at || ((at == pos + len) && (ltb 0 len || insert_before))
    then min (at + size - len) total
    else if ltb pos at
    then pos
    else at

-- A cursor after copying. The first loop of the code also finds the other coordinates of the
-- cursors that it moves; the second finds those of all cursors again.
unfoldable pub after_copy : ℕ → ℕ → ℕ → ℕ → Bool → State → Cursor → Cursor
unfolding placed_at
after_copy actor pos len size insert_before s c =
    placed_at
      (min
        (if c.id == actor
          then c.byte_pos
          else moved_to pos len size insert_before s.total_bytes c.byte_pos)
        s.total_bytes)
      s c

-- The counts, the cursors and the history behind a copy in the tree.
abbrev pub copy_rest :
    ℕ
    → ℕ
    → ℕ
    → List ℕ
    → List Decoration
    → Bool
    → ℕ
    → Result ℕ × State
    → Document
    → Report × Document
copy_rest actor pos len bytes displaced insert_before now (err e, s) d =
    (err e, record d { state = s })
copy_rest actor pos len bytes displaced insert_before now (ok id, s) d =
    let s' : State = update_counts_from_root s in
    let out = record_mutation now s' in
    (
      ok (relative pos displaced, out.0),
      record {
        state = out.1;
        cursors =
            tracked_all s' out.1 (after_copy actor pos len (length bytes) insert_before s')
              d.cursors;
      },
    )

-- What was taken out of the destination, and the document without it.
abbrev pub copy_with :
    (List ℕ → Option ℕ)
    → ℕ
    → ℕ
    → ℕ
    → List RelativeDecoration
    → Bool
    → ℕ
    → List ℕ
    → Result (ℕ × List Decoration) × Heap
    → Document
    → Report × Document
copy_with cache actor pos len decs insert_before now bytes (err e, h) d =
    (err e, record d { state = record d.state { heap = h } })
copy_with cache actor pos len decs insert_before now bytes (ok (id, displaced), h) d =
    copy_rest actor pos len bytes displaced insert_before now
      (copy_tree cache pos bytes decs displaced insert_before (ltb 0 len || insert_before)
        (record d.state { heap = h; root = id }))
      d

-- The destination is taken out of the tree, when there is one.
abbrev pub taken_out : ℕ → ℕ → State → Result (ℕ × List Decoration) × Heap
taken_out pos len s =
    if len == 0 then (ok (s.root, []), s.heap) else delete_range (suc s.root) s.root pos len s.heap

abbrev pub copy_read :
    (List ℕ → Option ℕ)
    → ℕ
    → ℕ
    → ℕ
    → List RelativeDecoration
    → Bool
    → ℕ
    → Result (List ℕ)
    → Document
    → Report × Document
copy_read cache actor pos len decs insert_before now (err e) d = (err e, d)
copy_read cache actor pos len decs insert_before now (ok bytes) d =
    copy_with cache actor pos len decs insert_before now bytes (taken_out pos len d.state) d

-- The bytes to copy, read before anything changes.
abbrev pub source_bytes : ℕ → ℕ → State → Result (List ℕ)
source_bytes start len s =
    if len == 0 then ok [] else read_bytes_range_internal s.heap (suc s.root) s.root start len

abbrev pub positions_kept : Document → Document
positions_kept d = if in_transaction d.state then d else record_cursor_positions d

-- copyBytesAt
unfoldable pub copy_bytes_at :
    (List ℕ → Option ℕ)
    → ℕ
    → ℕ
    → ℕ
    → ℕ
    → ℕ
    → List RelativeDecoration
    → Bool
    → ℕ
    → Document
    → Report × Document
unfolding copy_tree after_copy record_cursor_positions
copy_bytes_at cache actor src_start src_end dst_start dst_end decs insert_before now d =
    if ltb src_end src_start || ltb d.state.total_bytes src_end
    then (err invalid_position, d)
    else if ltb dst_end dst_start || ltb d.state.total_bytes dst_end
    then (err invalid_position, d)
    else if (src_end - src_start == 0) && (dst_end - dst_start == 0)
    then (
      ok (
        [],
        record { fork = d.state.heap.current_fork; revision = d.state.heap.current_revision },
      ),
      d,
    )
    else (let d' : Document = positions_kept d in
        copy_read cache actor dst_start (dst_end - dst_start) decs insert_before now
          (source_bytes src_start (src_end - src_start) d'.state) d')
