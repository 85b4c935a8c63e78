-- ===== src/Edit/Delete.antt =====
-- deleteBytesAt (garland.go), on a document whose bytes are in memory. The flag for the
-- decorations of a line is not read by the source, and left out.
pub mod Shows
use garland.Base.{
  ℕ, suc, ◌+◌, ◌-◌, Bool, true, false, not, List, [], ◌∷◌, map, length, ltb, leb, ◌==◌,
  if◌then◌else◌, min,
}
use garland.Result.{Error, Result, ok, err, invalid_position}
use garland.Address.{Decoration, RelativeDecoration}
use garland.Utf8.{rune_count}
use garland.Node.Text.{newlines}
use garland.Heap.{Heap}
use garland.Rope.Delete.{delete_range}
use garland.Rope.Read.{read_bytes_range_internal}
use garland.Coalesce.{coalesce_delete}
use garland.Cursor.{Cursor, Delta, adjust_for_mutation, byte_to_rune, byte_to_line_rune}
use garland.History.{State, ChangeResult, record_mutation}
use garland.Edit.{tracked_all, Document, home_mark, decide, cleared, counted_out, unedited}

-- The marks of the range, put at the place of the deletion.
unfoldable pub home_marks : List Decoration → ℕ → State → State
home_marks [] pos s = s
home_marks (d ∷ ds) pos s = home_marks ds pos (home_mark d.key pos s)

-- A conversion whose error is dropped.
abbrev pub zero_unless_ok : Result ℕ → ℕ
zero_unless_ok (ok n) = n
zero_unless_ok (err e) = 0

abbrev pub zeros_unless_ok : Result (ℕ × ℕ) → ℕ × ℕ
zeros_unless_ok (ok p) = p
zeros_unless_ok (err e) = (0, 0)

abbrev shrinkage : ℕ → Delta
shrinkage n = record { grown = 0; shrunk = n }

-- A cursor after the deletion of `bytes` at `pos` by cursor `actor`, in the tree that remains.
unfoldable pub after_delete : ℕ → ℕ → List ℕ → ℕ → State → Cursor → Cursor
after_delete actor pos bytes len s c =
    if c.id == actor
    then c
    else if ltb (pos + len) c.byte_pos
    then adjust_for_mutation (pos + len) (shrinkage (length bytes)) (shrinkage (rune_count bytes))
        (shrinkage (newlines bytes)) false c
    else if ltb pos c.byte_pos
    then (let line = zeros_unless_ok (byte_to_line_rune s.heap s.root pos) in
        record c {
          byte_pos = pos;
          rune_pos = zero_unless_ok (byte_to_rune s.heap s.root pos);
          line = line.0;
          line_rune = line.1;
        })
    else c

-- The report: the marks with positions from the start of the range.
abbrev pub relative : ℕ → List Decoration → List RelativeDecoration
relative pos = map (λ d. record { key = d.key; position = d.position - pos })

-- The marks, the counts, the cursors and the history behind a deletion in the tree.
abbrev pub delete_rest :
    ℕ
    → ℕ
    → ℕ
    → List ℕ
    → ℕ
    → Result (ℕ × List Decoration) × Heap
    → Document
    → Result (List RelativeDecoration × ChangeResult) × Document
delete_rest actor pos len bytes now (err e, h) d =
    (err e, record d { state = record d.state { heap = h } })
delete_rest actor pos len bytes now (ok (id, decs), h) d =
    let s : State =
      home_marks decs pos (counted_out bytes (record d.state { heap = h; root = id })) in
    let out = record_mutation now s in
    (
      ok (relative pos decs, out.0),
      record {
        state = out.1;
        cursors = tracked_all s out.1 (after_delete actor pos bytes len s) d.cursors;
      },
    )

-- The answer to a call that has nothing to do.
abbrev pub untouched : Document → Result (List RelativeDecoration × ChangeResult) × Document
untouched d = (
  ok ([], record { fork = d.state.heap.current_fork; revision = d.state.heap.current_revision }),
  d,
)

-- deleteBytesAt with what it read of the range.
abbrev pub delete_read :
    ℕ
    → ℕ
    → ℕ
    → ℕ
    → Result (List ℕ)
    → Document
    → Result (List RelativeDecoration × ChangeResult) × Document
delete_read actor pos len now (err e) d = (err e, d)
delete_read actor pos len now (ok bytes) d =
    delete_rest actor pos len bytes now
      (delete_range (suc d.state.root) d.state.root pos len d.state.heap) d

-- deleteBytesAt behind its checks.
unfoldable pub delete_decided :
    ℕ → ℕ → ℕ → ℕ → Document → Result (List RelativeDecoration × ChangeResult) × Document
unfolding home_marks after_delete
delete_decided actor pos len now d =
    delete_read actor pos len now
      (read_bytes_range_internal d.state.heap (suc d.state.root) d.state.root pos len) d

-- deleteBytesAt; a range that goes behind the end of the text is cut there.
unfoldable pub delete_bytes_at :
    ℕ → ℕ → ℕ → ℕ → Document → Result (List RelativeDecoration × ChangeResult) × Document
unfolding delete_decided
delete_bytes_at actor pos len now d =
    if len == 0
    then untouched d
    else if leb d.state.total_bytes pos
    then (err invalid_position, d)
    else (let n : ℕ = min len (d.state.total_bytes - pos) in
        let out = delete_decided actor pos n now (decide coalesce_delete pos n now d) in
        (out.0, cleared out.1))
