-- ===== src/Rope/Split.antt =====
-- splitLeaf and collectLeaves (tree.go).
pub mod Text
use garland.Base.{
  ℕ, zero, suc, ◌+◌, Bool, true, false, List, [], ◌++◌, take, drop, length, ltb, if◌then◌else◌,
  Option, none, some,
}
use garland.Result.{Result, ok, err, invalid_position, not_a_leaf}
use garland.Utf8.{align_to_rune_boundary}
use garland.Node.{Snapshot, partition_decorations}
use garland.Heap.{Heap, M, ◌>>=◌, return, fail, current, add_leaf}

-- splitLeaf
unfoldable pub split_leaf : Snapshot → ℕ → M (ℕ × ℕ)
split_leaf snap byte_pos = elim snap.is_leaf [
  | false ↦ fail not_a_leaf
  | true ↦
      if ltb snap.byte_count byte_pos
      then fail invalid_position
      else (let at : ℕ = align_to_rune_boundary snap.content byte_pos in
          let parts = partition_decorations snap.decorations at true in
          add_leaf (take at snap.content) parts.left snap.original_file_offset >>= λ left.
          add_leaf (drop at snap.content) parts.right
            (elim snap.original_file_offset [ none ↦ none | some o ↦ some (o + at) ])
          >>= λ right. return (left, right))
]

-- collectLeaves; a missing node or snapshot adds nothing.
unfoldable pub collect_leaves : Heap → ℕ → ℕ → List ℕ
collect_leaves h zero id = []
collect_leaves h (suc fuel) id = elim (current h id) [
  | none ↦ []
  | some s ↦ elim s.is_leaf [
    | true ↦ s.content
    | false ↦ collect_leaves h fuel s.left_id ++ collect_leaves h fuel s.right_id
  ]
]
