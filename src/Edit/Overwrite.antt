-- ===== src/Edit/Overwrite.antt =====
-- overwriteBytesAt (garland.go), on a document whose bytes are in memory. `cache` gives the last
-- known offset of a key in the cache of decorations.
pub mod Shows
use garland.Base.{
  ℕ, suc, ◌+◌, ◌-◌, Bool, true, false, not, ◌&&◌, ◌||◌, List, [], ◌∷◌, ◌++◌, map, length, ltb, ◌==◌,
  if◌then◌else◌, min, Option, none, some,
}
use garland.Result.{Error, Result, ok, err, invalid_position, internal}
use garland.Address.{Decoration, RelativeDecoration}
use garland.Utf8.{rune_count}
use garland.Node.Text.{newlines}
use garland.Heap.{Heap, current}
use garland.Rope.Insert.{insert_internal}
use garland.Rope.Delete.{delete_range}
use garland.Rope.Read.{read_bytes_range_internal}
use garland.Rope.Mark.Remove.{remove_decoration_direct}
use garland.Coalesce.{coalesce_overwrite}
use garland.Cursor.{Cursor, byte_to_rune, byte_to_line_rune}
use garland.History.{State, ChangeResult, record_mutation}
use garland.Edit.{
  tracked_all, Document, split_end_decorations, home_mark, insert_marks, decide, cleared,
}
use garland.Edit.Delete.{relative, zero_unless_ok, zeros_unless_ok}

abbrev pub Report : Type 0
Report = Result (List RelativeDecoration × ChangeResult)

-- The marks for the new content: those given, and those of the range at one of its ends.
unfoldable pub consolidated :
    List RelativeDecoration → List Decoration → ℕ → Bool → List RelativeDecoration
consolidated decs displaced size insert_before =
    decs
    ++ map (λ d. record { key = d.key; position = if insert_before then size else 0 }) displaced

abbrev with_removed : Result (ℕ × Bool) × Heap → State → State
with_removed (ok (id, removed), h) s =
    if removed then record s { heap = h; root = id } else record s { heap = h }
with_removed (err e, h) s = record s { heap = h }

-- The marks of content that is empty, put at the place of the range; errors are passed over.
unfoldable pub rehome_marks : (List ℕ → Option ℕ) → List RelativeDecoration → ℕ → State → State
rehome_marks cache [] pos s = s
rehome_marks cache (d ∷ ds) pos s = rehome_marks cache ds pos (
    home_mark d.key pos
      (with_removed (remove_decoration_direct cache (suc s.root) s.root d.key s.heap) s))

-- The new content in the tree that the range was taken out of.
unfoldable pub overwrite_insert :
    ℕ → List ℕ → List RelativeDecoration → Bool → State → Result ℕ × State
overwrite_insert pos bytes all seam_before s = elim (current s.heap s.root) [
  | none ↦ (err internal, s)
  | some snap ↦
      let parts = split_end_decorations all (length bytes) in
      insert_marks parts.1 pos
        (insert_internal (suc s.root) snap pos 0 bytes parts.0 seam_before s.heap) s
]

unfoldable pub overwrite_tree :
    (List ℕ → Option ℕ) → ℕ → List ℕ → List RelativeDecoration → Bool → State → Result ℕ × State
unfolding overwrite_insert rehome_marks
overwrite_tree cache pos bytes all seam_before s =
    if length bytes == 0
    then (let s' : State = rehome_marks cache all pos s in (ok s'.root, s'))
    else overwrite_insert pos bytes all seam_before s

-- The counts with the net change.
abbrev pub counted_over : List ℕ → List ℕ → State → State
counted_over bytes deleted s = record s {
  total_bytes = s.total_bytes + length bytes - length deleted;
  total_runes = s.total_runes + rune_count bytes - rune_count deleted;
  total_lines = s.total_lines + newlines bytes - newlines deleted;
}

-- A cursor at a byte, with its other coordinates from the tree.
unfoldable pub placed_at : ℕ → State → Cursor → Cursor
placed_at byte_pos s c =
    let line = zeros_unless_ok (byte_to_line_rune s.heap s.root byte_pos) in
    record c {
      byte_pos = byte_pos;
      rune_pos = zero_unless_ok (byte_to_rune s.heap s.root byte_pos);
      line = line.0;
      line_rune = line.1;
      line_rune_dirty = false;
    }

-- A cursor after the bytes of a range were replaced; the acting cursor is moved as the others are.
unfoldable pub after_overwrite : ℕ → ℕ → List ℕ → List ℕ → Bool → State → Cursor → Cursor
unfolding placed_at
after_overwrite pos len bytes deleted insert_before s c =
    if ltb (pos + len) c.byte_pos || ((c.byte_pos == pos + len) && (ltb 0 len || insert_before))
    then placed_at (c.byte_pos + length bytes - length deleted) s c
    else if ltb pos c.byte_pos
    then placed_at pos s c
    else c

-- The counts, the cursors and the history behind a replacement in the tree.
abbrev pub overwrite_rest :
    ℕ
    → ℕ
    → List ℕ
    → List ℕ
    → List Decoration
    → Bool
    → ℕ
    → Result ℕ × State
    → Document
    → Report × Document
overwrite_rest pos len bytes deleted displaced insert_before now (err e, s) d =
    (err e, record d { state = s })
overwrite_rest pos len bytes deleted displaced insert_before now (ok id, s) d =
    let s' : State = counted_over bytes deleted s in
    let out = record_mutation now s' in
    (
      ok (relative pos displaced, out.0),
      record {
        state = out.1;
        cursors =
            tracked_all s' out.1 (after_overwrite pos len bytes deleted insert_before s') d.cursors;
      },
    )

-- What was taken out, and the document without it.
abbrev pub overwrite_with :
    (List ℕ → Option ℕ)
    → ℕ
    → ℕ
    → List ℕ
    → List RelativeDecoration
    → Bool
    → ℕ
    → List ℕ
    → Result (ℕ × List Decoration) × Heap
    → Document
    → Report × Document
overwrite_with cache pos len bytes decs insert_before now deleted (err e, h) d =
    (err e, record d { state = record d.state { heap = h } })
overwrite_with cache pos len bytes decs insert_before now deleted (ok (id, displaced), h) d =
    overwrite_rest pos len bytes deleted displaced insert_before now
      (overwrite_tree cache pos bytes (consolidated decs displaced (length bytes) insert_before)
        (ltb 0 len || insert_before) (record d.state { heap = h; root = id }))
      d

abbrev pub overwrite_read :
    (List ℕ → Option ℕ)
    → ℕ
    → ℕ
    → List ℕ
    → List RelativeDecoration
    → Bool
    → ℕ
    → Result (List ℕ)
    → Document
    → Report × Document
overwrite_read cache pos len bytes decs insert_before now (err e) d = (err e, d)
overwrite_read cache pos len bytes decs insert_before now (ok deleted) d =
    overwrite_with cache pos len bytes decs insert_before now deleted
      (delete_range (suc d.state.root) d.state.root pos len d.state.heap) d

-- overwriteBytesAtInternal behind its checks; without a range, nothing is taken out.
unfoldable pub overwrite_decided :
    (List ℕ → Option ℕ)
    → ℕ
    → ℕ
    → List ℕ
    → List RelativeDecoration
    → Bool
    → ℕ
    → Document
    → Report × Document
unfolding overwrite_tree after_overwrite consolidated
overwrite_decided cache pos len bytes decs insert_before now d =
    if len == 0
    then overwrite_with cache pos len bytes decs insert_before now []
        (ok (d.state.root, []), d.state.heap) d
    else overwrite_read cache pos len bytes decs insert_before now
        (read_bytes_range_internal d.state.heap (suc d.state.root) d.state.root pos len) d

-- overwriteBytesAtInternal
unfoldable pub overwrite_bytes_at_internal :
    (List ℕ → Option ℕ)
    → ℕ
    → ℕ
    → List ℕ
    → List RelativeDecoration
    → Bool
    → ℕ
    → Document
    → Report × Document
unfolding overwrite_decided
overwrite_bytes_at_internal cache pos len bytes decs insert_before now d =
    if (len == 0) && (length bytes == 0)
    then (
      ok (
        [],
        record { fork = d.state.heap.current_fork; revision = d.state.heap.current_revision },
      ),
      d,
    )
    else if ltb d.state.total_bytes pos
    then (err invalid_position, d)
    else (let n : ℕ = min len (d.state.total_bytes - pos) in
        let out =
          overwrite_decided cache pos n bytes decs insert_before now
            (decide coalesce_overwrite pos (length bytes) now d) in
        (out.0, cleared out.1))

-- overwriteBytesAt
abbrev pub overwrite_bytes_at :
    (List ℕ → Option ℕ) → ℕ → ℕ → List ℕ → ℕ → Document → Report × Document
overwrite_bytes_at cache pos len bytes now d =
    overwrite_bytes_at_internal cache pos len bytes [] false now d
