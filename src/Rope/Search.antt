-- ===== src/Rope/Search.antt =====
-- Finding the leaf of a byte, of a rune and of a line (tree.go). Positions are not negative: the
-- callers' tests for that have nothing to reject here. `fuel` bounds the depth of the descent.
pub mod Bytes
use garland.Base.{
  ℕ, zero, suc, ◌+◌, ◌-◌, Bool, true, false, ◌&&◌, ◌||◌, length, ◌==◌, ltb, if◌then◌else◌, none,
  some, get_elem?,
}
use garland.Result.{Result, ok, err, invalid_position, out_of_fuel, ◌>>=◌}
use garland.Address.{LineStart}
use garland.Utf8.{byte_to_rune_offset, rune_to_byte_offset}
use garland.Node.{Snapshot}
use garland.Heap.{Heap, current, or_invalid}

-- LeafSearchResult, with the leaf's number for the leaf.
pub record LeafSearchResult : Type 0 where
  pub node : ℕ
  pub snapshot : Snapshot
  pub byte_offset : ℕ
  pub rune_offset : ℕ
  pub leaf_byte_start : ℕ
  pub leaf_rune_start : ℕ
  pub runes_on_line_before_leaf : ℕ

-- LineSearchResult
pub record LineSearchResult : Type 0 where
  pub leaf_result : LeafSearchResult
  pub line_byte_start : ℕ
  pub line_rune_start : ℕ

-- The runes on the current line behind a left subtree.
unfoldable pub runes_past : Snapshot → ℕ → ℕ
runes_past left on_line =
    if ltb 0 left.line_count then left.runes_after_last_newline else on_line + left.rune_count

-- findLeafByByteInternal
unfoldable pub find_leaf_by_byte_internal :
    Heap → ℕ → ℕ → Snapshot → ℕ → ℕ → ℕ → ℕ → Result LeafSearchResult
unfolding runes_past
find_leaf_by_byte_internal h zero id snap pos byte_start rune_start on_line = err out_of_fuel
find_leaf_by_byte_internal h (suc fuel) id snap pos byte_start rune_start on_line =
    elim snap.is_leaf [
      | true ↦ ok (record {
        node = id;
        snapshot = snap;
        byte_offset = pos;
        rune_offset = byte_to_rune_offset snap.content pos;
        leaf_byte_start = byte_start;
        leaf_rune_start = rune_start;
        runes_on_line_before_leaf = on_line;
      })
      | false ↦ or_invalid (current h snap.left_id) >>= λ l. elim (ltb pos l.byte_count) [
        | true ↦ find_leaf_by_byte_internal h fuel snap.left_id l pos byte_start rune_start on_line
        | false ↦ or_invalid (current h snap.right_id) >>= λ r.
            find_leaf_by_byte_internal h fuel snap.right_id r (pos - l.byte_count)
              (byte_start + l.byte_count) (rune_start + l.rune_count) (runes_past l on_line)
      ]
    ]

-- findLeafByByteUnlocked, from the root; the end of the text is a position too.
unfoldable pub find_leaf_by_byte : Heap → ℕ → ℕ → ℕ → Result LeafSearchResult
find_leaf_by_byte h fuel root pos = or_invalid (current h root) >>= λ s.
    if ltb s.byte_count pos
    then err invalid_position
    else find_leaf_by_byte_internal h fuel root s pos 0 0 0

-- findLeafByRuneInternal
unfoldable pub find_leaf_by_rune_internal :
    Heap → ℕ → ℕ → Snapshot → ℕ → ℕ → ℕ → ℕ → Result LeafSearchResult
unfolding runes_past
find_leaf_by_rune_internal h zero id snap pos byte_start rune_start on_line = err out_of_fuel
find_leaf_by_rune_internal h (suc fuel) id snap pos byte_start rune_start on_line =
    elim snap.is_leaf [
      | true ↦ ok (record {
        node = id;
        snapshot = snap;
        byte_offset = rune_to_byte_offset snap.content pos;
        rune_offset = pos;
        leaf_byte_start = byte_start;
        leaf_rune_start = rune_start;
        runes_on_line_before_leaf = on_line;
      })
      | false ↦ or_invalid (current h snap.left_id) >>= λ l. elim (ltb pos l.rune_count) [
        | true ↦ find_leaf_by_rune_internal h fuel snap.left_id l pos byte_start rune_start on_line
        | false ↦ or_invalid (current h snap.right_id) >>= λ r.
            find_leaf_by_rune_internal h fuel snap.right_id r (pos - l.rune_count)
              (byte_start + l.byte_count) (rune_start + l.rune_count) (runes_past l on_line)
      ]
    ]

-- findLeafByRuneUnlocked
unfoldable pub find_leaf_by_rune : Heap → ℕ → ℕ → ℕ → Result LeafSearchResult
find_leaf_by_rune h fuel root pos = or_invalid (current h root) >>= λ s.
    if ltb s.rune_count pos
    then err invalid_position
    else find_leaf_by_rune_internal h fuel root s pos 0 0 0

-- Where a line of a leaf starts, by the four cases of findLeafByLineInternal at a leaf.
unfoldable pub line_start_in_leaf : Snapshot → ℕ → ℕ → Result LineStart
line_start_in_leaf snap line rune_in_line =
    if line == 0
    then ok (record { byte_offset = 0; rune_offset = 0 })
    else elim (get_elem? snap.line_starts line) [
      | some l ↦ ok l
      | none ↦
          if (line == length snap.line_starts) && (rune_in_line == 0)
          then ok (record { byte_offset = length snap.content; rune_offset = snap.rune_count })
          else err invalid_position
    ]

-- The end of the search for a line, in its leaf.
unfoldable pub line_in_leaf : ℕ → Snapshot → ℕ → ℕ → ℕ → ℕ → ℕ → Result LineSearchResult
unfolding line_start_in_leaf
line_in_leaf id snap line rune_in_line byte_start rune_start on_line =
    line_start_in_leaf snap line rune_in_line >>= λ l.
    let runes : ℕ = l.rune_offset + rune_in_line in
    let bytes : ℕ = rune_to_byte_offset snap.content runes in
    if ltb (length snap.content) bytes
    then err invalid_position
    else ok (record {
      leaf_result = record {
        node = id;
        snapshot = snap;
        byte_offset = bytes;
        rune_offset = runes;
        leaf_byte_start = byte_start;
        leaf_rune_start = rune_start;
        runes_on_line_before_leaf = (if line == 0 then on_line else 0);
      };
      line_byte_start = byte_start + l.byte_offset;
      line_rune_start = rune_start + l.rune_offset;
    })

-- findLeafByLineInternal
unfoldable pub find_leaf_by_line_internal :
    Heap → ℕ → ℕ → Snapshot → ℕ → ℕ → ℕ → ℕ → ℕ → ℕ → Result LineSearchResult
unfolding runes_past line_in_leaf
find_leaf_by_line_internal h zero id snap target rune_in_line byte_start rune_start line_start
      on_line =
    err out_of_fuel
find_leaf_by_line_internal h (suc fuel) id snap target rune_in_line byte_start rune_start line_start
      on_line =
    elim snap.is_leaf [
      | true ↦
          if ltb target line_start
          then err invalid_position
          else line_in_leaf id snap (target - line_start) rune_in_line byte_start rune_start on_line
      | false ↦ or_invalid (current h snap.left_id) >>= λ l.
          let line : ℕ = target - line_start in
          let boundary : Bool = line == l.line_count in
          elim (ltb line l.line_count
            || (boundary && ltb rune_in_line l.runes_after_last_newline)) [
              | true ↦
                  find_leaf_by_line_internal h fuel snap.left_id l target rune_in_line byte_start
                    rune_start line_start on_line
              | false ↦ or_invalid (current h snap.right_id) >>= λ r.
                  find_leaf_by_line_internal h fuel snap.right_id r target
                    (if boundary then rune_in_line - l.runes_after_last_newline else rune_in_line)
                    (byte_start + l.byte_count) (rune_start + l.rune_count)
                    (line_start + l.line_count) (runes_past l on_line)
            ]
    ]

-- findLeafByLineUnlocked
unfoldable pub find_leaf_by_line : Heap → ℕ → ℕ → ℕ → ℕ → Result LineSearchResult
find_leaf_by_line h fuel root line rune_in_line = or_invalid (current h root) >>= λ s.
    if ltb 0 line && ltb s.line_count line
    then err invalid_position
    else find_leaf_by_line_internal h fuel root s line rune_in_line 0 0 0 0
