-- ===== src/Rope/Read.antt =====
-- readBytesRangeInternal (garland.go) on a document that is loaded whole: there is no stream whose
-- remainder it could read, and every leaf is in memory. `fuel` bounds the descents.
pub mod Text
use garland.Base.{
  ℕ, zero, suc, ◌+◌, ◌-◌, Bool, ◌||◌, true, false, List, [], ◌++◌, take, drop, ltb, leb, ◌==◌, min,
  if◌then◌else◌, Option, none, some,
}
use garland.Result.{Result, ok, err, internal, out_of_fuel, ◌>>=◌}
use garland.Node.{Snapshot}
use garland.Heap.{Heap, current}
use garland.Rope.Search.{LeafSearchResult, find_leaf_by_byte}

-- The same as or_invalid, with ErrInternal.
abbrev pub or_internal : Option Snapshot → Result Snapshot
or_internal none = err internal
or_internal (some s) = ok s

-- How much of what remains is read from a leaf.
abbrev pub to_read : ℕ → ℕ → ℕ → LeafSearchResult → ℕ
to_read tree_bytes remaining pos found =
    min (min remaining (found.snapshot.byte_count - found.byte_offset)) (tree_bytes - pos)

-- The loop over the leaves. `rounds` is fuel; each round reads at least one byte.
unfoldable pub read_leaves : ℕ → Heap → ℕ → ℕ → ℕ → ℕ → ℕ → Result (List ℕ)
read_leaves zero h fuel root tree_bytes remaining pos =
    if (remaining == 0) || leb tree_bytes pos then ok [] else err out_of_fuel
read_leaves (suc rounds) h fuel root tree_bytes remaining pos =
    elim ((remaining == 0) || leb tree_bytes pos) [
      | true ↦ ok []
      | false ↦ find_leaf_by_byte h fuel root pos >>= λ found.
          let n : ℕ = to_read tree_bytes remaining pos found in
          read_leaves rounds h fuel root tree_bytes (remaining - n) (pos + n) >>= λ rest.
          ok (take n (drop found.byte_offset found.snapshot.content) ++ rest)
    ]

-- readBytesRangeInternal
unfoldable pub read_bytes_range_internal : Heap → ℕ → ℕ → ℕ → ℕ → Result (List ℕ)
unfolding read_leaves
read_bytes_range_internal h fuel root pos len =
    if len == 0
    then ok []
    else (or_internal (current h root) >>= λ s.
        if leb s.byte_count pos
        then ok []
        else (let n : ℕ = min len (s.byte_count - pos) in
            read_leaves n h fuel root s.byte_count n pos))
