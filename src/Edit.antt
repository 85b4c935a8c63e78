-- ===== src/Edit.antt =====
-- The editing entry points of garland.go: insertBytesAt here, the others in the modules below, on a
-- document whose bytes are in memory. An edit is known by the number of the acting cursor, and by
-- the time at which it is made. The descents take `suc root` rounds.
pub mod Holds
pub mod Shows
pub mod Undo
pub mod Undone
pub mod Delete
pub mod Cursors
pub mod Ranges
pub mod Overwrite
pub mod Copy
pub mod Sequence
pub mod Typing
use garland.Base.{
  ℕ, suc, ◌+◌, ◌-◌, Bool, true, false, not, ◌&&◌, ◌||◌, List, [], ◌∷◌, ◌++◌, map, length, ltb, leb,
  ◌==◌, if◌then◌else◌, min, Option, none, some,
}
use garland.Result.{Error, Result, ok, err, invalid_position}
use garland.Address.{Decoration, RelativeDecoration}
use garland.Utf8.{rune_count}
use garland.Node.{Snapshot}
use garland.Node.Text.{newlines}
use garland.Heap.{Heap, current}
use garland.Rope.Insert.{insert_internal}
use garland.Rope.Delete.{delete_range}
use garland.Rope.Read.{read_bytes_range_internal}
use garland.Rope.Mark.{add_decoration_internal}
use garland.Coalesce.{
  CoalesceKind, coalesce_insert, coalesce_delete, CoalescePending, coalesce_decide,
}
use garland.Cursor.{
  Cursor, Delta, adjust_for_mutation, record_cursor_position, byte_to_rune, byte_to_line_rune,
}
use garland.History.{State, ChangeResult, place, in_transaction, record_mutation}

-- A document: its state, and its cursors.
pub record Document : Type 0 where
  pub state : State
  pub cursors : List Cursor

-- splitEndDecorations: the marks within content of length `n`, and those at its end or behind.
unfoldable pub split_end_decorations :
    List RelativeDecoration → ℕ → List RelativeDecoration × List RelativeDecoration
split_end_decorations [] n = ([], [])
split_end_decorations (d ∷ ds) n =
    let rest = split_end_decorations ds n in
    if leb n d.position then (rest.0, d ∷ rest.1) else (d ∷ rest.0, rest.1)

-- The new root, if there is one; the registry changes in any case.
abbrev pub with_tree : Result ℕ × Heap → State → State
with_tree (ok id, h) s = record s { heap = h; root = id }
with_tree (err e, h) s = record s { heap = h }

-- A mark that is put into the tree; an error is passed over.
unfoldable pub home_mark : List ℕ → ℕ → State → State
home_mark key pos s = with_tree (add_decoration_internal (suc s.root) s.root key pos s.heap) s

-- addEndDecorations
unfoldable pub add_end_decorations : List RelativeDecoration → ℕ → State → State
unfolding home_mark
add_end_decorations [] landing s = s
add_end_decorations (d ∷ ds) landing s =
    add_end_decorations ds landing (home_mark d.key (landing + d.position) s)

-- recordCursorPositionsInHistory
unfoldable pub record_cursor_positions : Document → Document
record_cursor_positions d = record d {
  cursors = map (record_cursor_position d.state.heap d.state.root) d.cursors;
}

-- The decision whether an edit goes on a run, and the positions recorded before it.
unfoldable pub decide : CoalesceKind → ℕ → ℕ → ℕ → Document → Document
unfolding record_cursor_positions
decide kind pos len now d =
    let verdict = coalesce_decide d.state.coalesce (place d.state) kind pos len now in
    let d' : Document = record d { state = record d.state { coalesce_pending = verdict.0 } } in
    if not (in_transaction d.state) && not verdict.1 then record_cursor_positions d' else d'

-- The deferred clearing of the decision.
abbrev pub cleared : Document → Document
cleared d = record d { state = record d.state { coalesce_pending = none } }

-- The counts after an edit.
abbrev pub counted_in : List ℕ → State → State
counted_in bytes s = record s {
  total_bytes = s.total_bytes + length bytes;
  total_runes = s.total_runes + rune_count bytes;
  total_lines = s.total_lines + newlines bytes;
}

abbrev pub counted_out : List ℕ → State → State
counted_out bytes s = record s {
  total_bytes = s.total_bytes - length bytes;
  total_runes = s.total_runes - rune_count bytes;
  total_lines = s.total_lines - newlines bytes;
}

abbrev growth : ℕ → Delta
growth n = record { grown = n; shrunk = 0 }

abbrev shrinkage : ℕ → Delta
shrinkage n = record { grown = 0; shrunk = n }

-- A cursor after an insertion by cursor `actor`.
unfoldable pub after_insert : ℕ → ℕ → List ℕ → Bool → Cursor → Cursor
after_insert actor pos bytes insert_before c =
    if not (c.id == actor) && leb pos c.byte_pos
    then adjust_for_mutation pos (growth (length bytes)) (growth (rune_count bytes))
        (growth (newlines bytes)) insert_before c
    else c

-- A cursor behind recordMutation and createForkFromCurrent, which note the version in it when they
-- change that.
unfoldable pub tracked : State → State → Cursor → Cursor
tracked before after c =
    if (after.heap.current_fork == before.heap.current_fork)
      && (after.heap.current_revision == before.heap.current_revision)
    then c
    else record c {
      last_fork = after.heap.current_fork;
      last_revision = after.heap.current_revision;
    }

-- The cursors behind an edit that was recorded.
unfoldable pub tracked_all : State → State → (Cursor → Cursor) → List Cursor → List Cursor
unfolding tracked
tracked_all before after move cursors = map (tracked before after) (map move cursors)

-- recordMutation, with the cursors; its result is the edit's.
unfoldable pub recorded : ℕ → (Cursor → Cursor) → Document → Result ChangeResult × Document
unfolding tracked_all
recorded now move d =
    let out = record_mutation now d.state in
    (ok out.0, record { state = out.1; cursors = tracked_all d.state out.1 move d.cursors })

-- The marks at the end of content that is in the tree.
abbrev pub insert_marks : List RelativeDecoration → ℕ → Result ℕ × Heap → State → Result ℕ × State
insert_marks end pos (ok id, h) s =
    (ok id, add_end_decorations end pos (record s { heap = h; root = id }))
insert_marks end pos (err e, h) s = (err e, record s { heap = h })

-- The tree with the content and its marks in it.
unfoldable pub insert_tree : ℕ → List ℕ → List RelativeDecoration → Bool → State → Result ℕ × State
unfolding split_end_decorations
insert_tree pos bytes decs insert_before s = elim (current s.heap s.root) [
  | none ↦ (err invalid_position, s)
  | some snap ↦
      let parts = split_end_decorations decs (length bytes) in
      insert_marks parts.1 pos
        (insert_internal (suc s.root) snap pos 0 bytes parts.0 insert_before s.heap) s
]

-- The counts, the cursors and the history behind an insertion into the tree.
abbrev pub insert_rest :
    ℕ → ℕ → List ℕ → Bool → ℕ → Result ℕ × State → Document → Result ChangeResult × Document
insert_rest actor pos bytes insert_before now (err e, s) d = (err e, record d { state = s })
insert_rest actor pos bytes insert_before now (ok id, s) d =
    recorded now (after_insert actor pos bytes insert_before)
      (record d { state = counted_in bytes s })

-- insertBytesAt behind its checks.
unfoldable pub insert_decided :
    ℕ → ℕ → List ℕ → List RelativeDecoration → Bool → ℕ → Document → Result ChangeResult × Document
unfolding insert_tree
insert_decided actor pos bytes decs insert_before now d =
    insert_rest actor pos bytes insert_before now (insert_tree pos bytes decs insert_before d.state)
      d

abbrev pub unedited : Document → Result ChangeResult × Document
unedited d =
    (ok (record { fork = d.state.heap.current_fork; revision = d.state.heap.current_revision }), d)

-- insertBytesAt
unfoldable pub insert_bytes_at :
    ℕ → ℕ → List ℕ → List RelativeDecoration → Bool → ℕ → Document → Result ChangeResult × Document
unfolding decide insert_decided
insert_bytes_at actor pos bytes decs insert_before now d =
    if (length bytes == 0) && (length decs == 0)
    then unedited d
    else if ltb d.state.total_bytes pos
    then (err invalid_position, d)
    else (let out =
          insert_decided actor pos bytes decs insert_before now
            (decide coalesce_insert pos (length bytes) now d) in
        (out.0, cleared out.1))
