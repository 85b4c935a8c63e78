-- ===== src/Node/Leaf.antt =====
-- What createLeafSnapshot and createInternalSnapshot record.
use garland.Base.{
  ℕ, zero, suc, ◌≡◌, ap, sym, ◌∙◌, List, [], ◌∷◌, length, map, Option, arith, inl, inr,
  Option-cases, get_elem?,
}
use garland.Address.{Decoration, LineStart}
use garland.Node.{scan_lines, runes_after, first_line, create_leaf_snapshot}
use garland.Node.Text.{newlines, last_line, starts_from, line_at}
use garland.Node.Lines.{
  scan_lines-newlines, scan_lines-starts, scan_lines-rest, rune_count-nil, runes_left,
}
use garland.Utf8.{rune_count}
use garland.Utf8.Newline.{nil-IsCut}

runes_after-runes_left :
    (runes lines : ℕ) (starts : List LineStart)
    → runes_after runes lines (first_line ∷ starts)
      ≡ runes_left runes (get_elem? (first_line ∷ starts) lines)
unfolding runes_after
runes_after-runes_left runes zero starts = omega arith
runes_after-runes_left runes (suc lines) starts = elim (Option-cases (get_elem? starts lines)) [
  | inl e ↦ ground arith
  | inr (x, e) ↦ ground arith
]

module _ (bs : List ℕ) (decs : List Decoration) (offset : Option ℕ) where
  -- The line count of a leaf is the number of newlines in its text.
  pub line_count-create_leaf_snapshot :
      (create_leaf_snapshot bs decs offset).line_count ≡ newlines bs
  unfolding create_leaf_snapshot
  line_count-create_leaf_snapshot = scan_lines-newlines (length bs) bs 0 0 (omega arith)

  -- The lines of a leaf are indexed at its start and behind each newline that has text behind it,
  -- each with the runes before it.
  pub line_starts-create_leaf_snapshot :
      (create_leaf_snapshot bs decs offset).line_starts ≡ map (line_at bs) (0 ∷ starts_from 0 bs)
  unfolding create_leaf_snapshot
  line_starts-create_leaf_snapshot =
      ap (first_line ∷◌)
        (rw rune_count-nil at (scan_lines-starts (length bs) [] bs nil-IsCut (omega arith)))
      ∙ ap (λ r. record { byte_offset = 0; rune_offset = r } ∷ map (line_at bs) (starts_from 0 bs))
          (sym rune_count-nil)

  -- The runes that a leaf records behind its last newline are those of its last line.
  pub runes_after-create_leaf_snapshot :
      (create_leaf_snapshot bs decs offset).runes_after_last_newline ≡ rune_count (last_line bs)
  unfolding create_leaf_snapshot runes_after
  runes_after-create_leaf_snapshot =
      runes_after-runes_left (rune_count bs) (scan_lines (length bs) bs 0 0).1
        (scan_lines (length bs) bs 0 0).0
      ∙ rw rune_count-nil at (
          scan_lines-rest (length bs) [] bs first_line nil-IsCut (omega arith) (sym rune_count-nil))
