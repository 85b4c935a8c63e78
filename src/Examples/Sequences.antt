-- ===== src/Examples/Sequences.antt =====
-- Witnesses for overwriting, for edits one behind the other, and for positions after a rebase.
use garland.Base.{◌-◌, ℕ, ◌≤◌, true, false, List, [], ◌∷◌, Option, none, arith}
use garland.Utf8.{rune_count}
use garland.History.Shows.{Shows}
use garland.Edit.Shows.{Edits}
use garland.Edit.Ranges.{truncate_at, truncate_at-Edits}
use garland.Edit.Sequence.{
  EditCall, inserting, deleting, overwriting, truncating, copying, run, Succeed, run-Shows,
}
use garland.Rebase.{RebaseAnchor, rebase_map_pos, rebase_map_pos_mono}
use garland.Examples.{first_bytes}
use garland.Examples.Edits.{leaf_state-Shows, leaf_document, new_bytes, new_marks}

abbrev no_cache : List ℕ → Option ℕ
no_cache key = none

truncate_at-Edits_example :
    Edits (truncate_at 7 2 5 leaf_document) (0xC3 ∷ 0xA9 ∷ []) (3 - rune_count (10 ∷ 97 ∷ []))
truncate_at-Edits_example =
    truncate_at-Edits 7 2 5 leaf_document first_bytes leaf_state-Shows (omega arith)

abbrev some_calls : List EditCall
some_calls =
    inserting 7 2 new_bytes new_marks true 5
    ∷ overwriting no_cache 1 2 new_bytes [] false 6
    ∷ deleting 7 0 1 7
    ∷ truncating 7 3 8
    ∷ copying no_cache 7 0 2 1 3 [] false 9
    ∷ []

run-Shows_example :
    Succeed some_calls leaf_document
    × Shows (run some_calls leaf_document).state (120 ∷ 120 ∷ 10 ∷ [])
run-Shows_example = run-Shows some_calls leaf_document first_bytes leaf_state-Shows (
  omega arith,
  (
    (omega arith, omega arith),
    (omega arith, (omega arith, ((omega arith, omega arith, omega arith, omega arith), tt))),
  ),
)

-- Bytes 2 to 5 went to 4, and bytes 8 and 9 stayed.
abbrev two_anchors : List RebaseAnchor
two_anchors =
    record { old_buf_off = 2; length = 4; new_off = 4 }
    ∷ record { old_buf_off = 8; length = 2; new_off = 8 }
    ∷ []

rebase_map_pos_mono_example :
    (rebase_map_pos 3 two_anchors 12 ≤ rebase_map_pos 7 two_anchors 12)
    × (rebase_map_pos 7 two_anchors 12 ≤ 12)
rebase_map_pos_mono_example =
    rebase_map_pos_mono two_anchors 12 3 7
      (omega arith, omega arith, (omega arith, omega arith, omega arith)) (omega arith)
