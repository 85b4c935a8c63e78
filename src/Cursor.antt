-- ===== src/Cursor.antt =====
-- Positions in a document (cursor.go, and the conversions of garland.go). A cursor is known by its
-- place in the list of cursors in the source; here it has a number. The waiting for a stream, the
-- mode and the open region of a cursor are left out. The descents take `suc root` rounds.
use garland.Base.{
  ℕ, zero, suc, ◌+◌, ◌-◌, Bool, true, false, not, ◌&&◌, ◌||◌, List, [], ◌∷◌, length, ltb, leb, ◌==◌,
  if◌then◌else◌, Option, none, some,
}
use garland.Result.{Result, ok, err, panic, out_of_fuel, ◌>>=◌}
use garland.Address.{LineStart}
use garland.Node.{Snapshot, ForkInfo}
use garland.Heap.{Heap, current}
use garland.Rope.Search.{LeafSearchResult, find_leaf_by_byte, find_leaf_by_rune, find_leaf_by_line}
use garland.Rope.Delete.{or_panic}

-- byteToRuneInternalUnlocked
unfoldable pub byte_to_rune : Heap → ℕ → ℕ → Result ℕ
byte_to_rune h root pos =
    if pos == 0
    then ok 0
    else (find_leaf_by_byte h (suc root) root pos >>= λ f. ok (f.leaf_rune_start + f.rune_offset))

-- runeToByteInternalUnlocked
unfoldable pub rune_to_byte : Heap → ℕ → ℕ → Result ℕ
rune_to_byte h root pos =
    if pos == 0
    then ok 0
    else (find_leaf_by_rune h (suc root) root pos >>= λ f. ok (f.leaf_byte_start + f.byte_offset))

-- lineRuneToByteInternalUnlocked
unfoldable pub line_rune_to_byte : Heap → ℕ → ℕ → ℕ → Result ℕ
line_rune_to_byte h root line rune_in_line =
    find_leaf_by_line h (suc root) root line rune_in_line >>= λ f.
    ok (f.leaf_result.leaf_byte_start + f.leaf_result.byte_offset)

-- countLinesBeforeByteInternal
unfoldable pub count_lines_before_byte : Heap → ℕ → Snapshot → ℕ → ℕ → Result ℕ
count_lines_before_byte h zero snap target at = err out_of_fuel
count_lines_before_byte h (suc fuel) snap target at = elim snap.is_leaf [
  | true ↦ ok 0
  | false ↦ or_panic (current h snap.left_id) >>= λ l. elim (ltb target (at + l.byte_count)) [
    | true ↦ count_lines_before_byte h fuel l target at
    | false ↦ or_panic (current h snap.right_id) >>= λ r.
        count_lines_before_byte h fuel r target (at + l.byte_count) >>= λ n. ok (l.line_count + n)
  ]
]

-- countLinesBeforeLeaf
unfoldable pub count_lines_before_leaf : Heap → ℕ → ℕ → Result ℕ
unfolding count_lines_before_byte
count_lines_before_leaf h root byte_start =
    if byte_start == 0 then ok 0 else elim (current h root) [
      | none ↦ ok 0
      | some s ↦ count_lines_before_byte h (suc root) s byte_start 0
    ]

-- The last line of a leaf that starts at or before an offset, with the runes before it; `line` is
-- the number of the first entry.
unfoldable pub line_at_or_before : List LineStart → ℕ → ℕ → ℕ × ℕ → ℕ × ℕ
line_at_or_before [] offset line best = best
line_at_or_before (s ∷ starts) offset line best =
    line_at_or_before starts offset (suc line)
      (if leb s.byte_offset offset then (line, s.rune_offset) else best)

-- prevSnap.data[len(prevSnap.data)-1]
unfoldable pub last_byte : List ℕ → Option ℕ
last_byte [] = none
last_byte (b ∷ []) = some b
last_byte (b ∷ c ∷ bs) = last_byte (c ∷ bs)

abbrev carried : ℕ → LeafSearchResult → ℕ
carried line f = if line == 0 then f.runes_on_line_before_leaf else 0

-- A position at the end of a leaf, told by the byte before it.
unfoldable pub line_rune_at_end : Heap → ℕ → LeafSearchResult → LeafSearchResult → Result (ℕ × ℕ)
unfolding count_lines_before_leaf line_at_or_before last_byte
line_rune_at_end h root f prev = elim (last_byte prev.snapshot.content) [
  | none ↦ err panic
  | some b ↦
      if b == 10
      then (count_lines_before_leaf h root f.leaf_byte_start >>= λ n.
          ok (n + f.snapshot.line_count, 0))
      else (let line =
            line_at_or_before prev.snapshot.line_starts (length prev.snapshot.content) 0 (0, 0) in
          count_lines_before_leaf h root prev.leaf_byte_start >>= λ n.
          ok (n + line.0, prev.snapshot.rune_count - line.1 + carried line.0 prev))
]

-- A position within a leaf.
unfoldable pub line_rune_in_leaf : Heap → ℕ → LeafSearchResult → Result (ℕ × ℕ)
unfolding count_lines_before_leaf line_at_or_before
line_rune_in_leaf h root f =
    let line = line_at_or_before f.snapshot.line_starts f.byte_offset 0 (0, 0) in
    count_lines_before_leaf h root f.leaf_byte_start >>= λ n.
    ok (n + line.0, f.rune_offset - line.1 + carried line.0 f)

-- byteToLineRuneInternalUnlocked
unfoldable pub byte_to_line_rune : Heap → ℕ → ℕ → Result (ℕ × ℕ)
unfolding line_rune_at_end line_rune_in_leaf
byte_to_line_rune h root pos =
    if pos == 0
    then ok (0, 0)
    else (find_leaf_by_byte h (suc root) root pos >>= λ f.
        if (f.byte_offset == length f.snapshot.content) || (length f.snapshot.content == 0)
        then (find_leaf_by_byte h (suc root) root (pos - 1) >>= λ prev.
            line_rune_at_end h root f prev)
        else line_rune_in_leaf h root f)

-- CursorPosition
pub record CursorPosition : Type 0 where
  pub byte_pos : ℕ
  pub rune_pos : ℕ
  pub line : ℕ
  pub line_rune : ℕ

-- Cursor
pub record Cursor : Type 0 where
  pub id : ℕ
  pub byte_pos : ℕ
  pub rune_pos : ℕ
  pub line : ℕ
  pub line_rune : ℕ
  pub line_rune_dirty : Bool
  pub last_fork : ℕ
  pub last_revision : ℕ
  pub position_history : ℕ → ℕ → Option CursorPosition
  pub tracks_history : Bool

abbrev pub position_of : Cursor → CursorPosition
position_of c = record {
  byte_pos = c.byte_pos;
  rune_pos = c.rune_pos;
  line = c.line;
  line_rune = c.line_rune;
}

abbrev pub record_position : ℕ → ℕ → CursorPosition → Cursor → Cursor
record_position fork rev pos c = record c {
  position_history = λ f r. if (f == fork) && (r == rev) then some pos else c.position_history f r;
}

-- newCursor
unfoldable pub new_cursor : ℕ → ℕ → ℕ → Bool → Cursor
new_cursor id fork rev tracks =
    let start : CursorPosition = record { byte_pos = 0; rune_pos = 0; line = 0; line_rune = 0 } in
    let c : Cursor = record {
      id = id;
      byte_pos = 0;
      rune_pos = 0;
      line = 0;
      line_rune = 0;
      line_rune_dirty = false;
      last_fork = fork;
      last_revision = rev;
      position_history = λ f r. none;
      tracks_history = tracks;
    } in
    if tracks then record_position fork rev start c else c

-- SetTracksHistory
unfoldable pub set_tracks_history : Bool → Cursor → Cursor
set_tracks_history track c = record c {
  tracks_history = track;
  position_history = (if track then c.position_history else λ f r. none);
}

-- A change of a size: what comes, and what goes. One of the two is 0 in every call.
pub record Delta : Type 0 where
  pub grown : ℕ
  pub shrunk : ℕ

abbrev pub shifted : ℕ → Delta → ℕ
shifted n d = n + d.grown - d.shrunk

-- adjustForMutation
unfoldable pub adjust_for_mutation : ℕ → Delta → Delta → Delta → Bool → Cursor → Cursor
adjust_for_mutation at bytes runes lines include_at c =
    if ltb at c.byte_pos || (include_at && ((c.byte_pos == at) && ltb bytes.shrunk bytes.grown))
    then record c {
      byte_pos = shifted c.byte_pos bytes;
      rune_pos = shifted c.rune_pos runes;
      line = shifted c.line lines;
      line_rune_dirty = true;
    }
    else c

-- resolveStaleLineRuneLocked; it keeps what it has when the conversion fails, but a nil
-- dereference in it stops the program.
unfoldable pub resolve_stale_line_rune : Heap → ℕ → Cursor → Cursor
resolve_stale_line_rune h root c =
    if c.line_rune_dirty
    then (elim (byte_to_line_rune h root c.byte_pos) [
      | err e ↦ c
      | ok p ↦ record c { line = p.0; line_rune = p.1; line_rune_dirty = false }
    ])
    else c

-- restorePosition
unfoldable pub restore_position : Option CursorPosition → Cursor → Cursor
restore_position none c = c
restore_position (some p) c = record c {
  byte_pos = p.byte_pos;
  rune_pos = p.rune_pos;
  line = p.line;
  line_rune = p.line_rune;
  line_rune_dirty = false;
}

-- snapshotPosition: the position, and the cursor with its column resolved.
unfoldable pub snapshot_position : Heap → ℕ → Cursor → CursorPosition × Cursor
unfolding resolve_stale_line_rune
snapshot_position h root c =
    let c' : Cursor = resolve_stale_line_rune h root c in (position_of c', c')

-- One cursor of recordCursorPositionsInHistory.
unfoldable pub record_cursor_position : Heap → ℕ → Cursor → Cursor
unfolding resolve_stale_line_rune
record_cursor_position h root c =
    if c.tracks_history
    then (let c' : Cursor = resolve_stale_line_rune h root c in
        record_position h.current_fork h.current_revision (position_of c') c')
    else c

-- cursorHistoryAt. A fork is numbered above its parent, so one round more than its number is
-- enough.
unfoldable pub cursor_history_from :
    (ℕ → Option ForkInfo) → Cursor → ℕ → ℕ → ℕ → Option CursorPosition
cursor_history_from forks c zero fork rev = none
cursor_history_from forks c (suc fuel) fork rev = elim (c.position_history fork rev) [
  | some p ↦ some p
  | none ↦ elim (forks fork) [
    | none ↦ none
    | some f ↦ elim ((f.parent_fork == fork) || ltb f.parent_revision rev) [
      | true ↦ none
      | false ↦ cursor_history_from forks c fuel f.parent_fork rev
    ]
  ]
]

unfoldable pub cursor_history_at : (ℕ → Option ForkInfo) → Cursor → ℕ → ℕ → Option CursorPosition
unfolding cursor_history_from
cursor_history_at forks c fork rev = cursor_history_from forks c (suc fork) fork rev

-- updatePosition, but for the highest position that was sought; `in_mutated` tells whether a
-- transaction has made mutations.
unfoldable pub update_position : Heap → Bool → CursorPosition → Cursor → Cursor
update_position h in_mutated p c =
    let c' : Cursor = restore_position (some p) c in
    if not in_mutated
      && (not (c.last_fork == h.current_fork) || not (c.last_revision == h.current_revision))
    then record (if c.tracks_history
        then record_position h.current_fork h.current_revision p c'
        else c') { last_fork = h.current_fork; last_revision = h.current_revision }
    else c'
