-- ===== src/Rope/Mark/Found.antt =====
-- The leaf that the search for a byte finds, and the rope with another leaf in its place.
use garland.Base.{
  ℕ, zero, suc, ◌+◌, ◌-◌, ◌≤◌, ◌<◌, ◌≡◌, refl, ap, ◌∙◌, List, length, length-append, Option, ltb,
  if◌then◌else◌, arith, Bool-cases, inl, inr, ltb→lt, ltb→ge,
}
use garland.Result.{Result, ok}
use garland.Address.{Decoration}
use garland.Utf8.{byte_to_rune_offset}
use garland.Node.{create_leaf_snapshot}
use garland.Heap.{Heap}
use garland.Heap.Represents.{
  Rope, leaf, node, text, height, root_snapshot, byte_count-root_snapshot, Here, Represents-view,
}
use garland.Rope.Search.{LeafSearchResult, runes_past, find_leaf_by_byte_internal}
use garland.Rope.Search.Bytes.{step-left, step-right}

-- A leaf of a rope: its text and marks, where it starts, and an offset in it.
pub record Found : Type 0 where
  pub bytes : List ℕ
  pub decs : List Decoration
  pub origin : Option ℕ
  pub start : ℕ
  pub offset : ℕ

abbrev pub behind : ℕ → Found → Found
behind n f = record f { start = n + f.start }

-- The leaf of a position.
abbrev pub found_at : Rope → ℕ → Found
found_at (leaf bs ds o) pos = record { bytes = bs; decs = ds; origin = o; start = 0; offset = pos }
found_at (node i j l r) pos =
    if ltb pos (length (text l))
    then found_at l pos
    else behind (length (text l)) (found_at r (pos - length (text l)))

pub found_at-start : (t : Rope) (pos : ℕ) → (found_at t pos).start + (found_at t pos).offset ≡ pos
found_at-start (leaf bs ds o) pos = omega arith
found_at-start (node i j l r) pos = elim (Bool-cases (ltb pos (length (text l)))) [
  | inl q ↦ rw q (found_at-start l pos)
  | inr q ↦ rw q (omega (arith, ltb→ge _ _ q, found_at-start r (pos - length (text l))))
]

-- A position before the end of the text is before the end of its leaf.
pub found_at-inside :
    (t : Rope) (pos : ℕ)
    → pos < length (text t)
    → (found_at t pos).offset < length (found_at t pos).bytes
found_at-inside (leaf bs ds o) pos lt = lt
found_at-inside (node i j l r) pos lt = elim (Bool-cases (ltb pos (length (text l)))) [
  | inl q ↦ rw q (found_at-inside l pos (ltb→lt _ _ q))
  | inr q ↦ rw q (
      found_at-inside r (pos - length (text l))
        (omega (arith, ltb→ge _ _ q, lt, length-append (text l) (text r))))
]

-- A search that returned this leaf, in a text that starts at `start`.
pub record Finds (out : Result LeafSearchResult) (f : Found) (start : ℕ) : Type 0 where
  pub result : LeafSearchResult
  pub found : out ≡ ok result
  pub same_snapshot : result.snapshot ≡ create_leaf_snapshot f.bytes f.decs f.origin
  pub same_offset : result.byte_offset ≡ f.offset
  pub same_start : result.leaf_byte_start ≡ start + f.start

Finds-behind :
    {out : Result LeafSearchResult} {f : Found} (n start next : ℕ)
    → next ≡ start + n
    → Finds out f next
    → Finds out (behind n f) start
Finds-behind n start next e p = record {
  result = p.result;
  found = p.found;
  same_snapshot = p.same_snapshot;
  same_offset = p.same_offset;
  same_start = omega (arith, p.same_start);
}

pub find_leaf_by_byte_internal-Finds :
    (fuel : ℕ) (h : Heap) (id : ℕ) (t : Rope) (pos byte_start rune_start on_line : ℕ)
    → Here h id t
    → height t ≤ fuel
    → Finds
        (find_leaf_by_byte_internal h fuel id (root_snapshot t) pos byte_start rune_start on_line)
        (found_at t pos)
        byte_start
unfolding root_snapshot find_leaf_by_byte_internal
find_leaf_by_byte_internal-Finds zero h id (leaf bs ds o) pos bst rst ol here tall =
    absurd (omega arith)
find_leaf_by_byte_internal-Finds zero h id (node i j l r) pos bst rst ol here tall =
    absurd (omega arith)
find_leaf_by_byte_internal-Finds (suc fuel) h id (leaf bs ds o) pos bst rst ol here tall = in_leaf
  where
    in_leaf :
        Finds
          (find_leaf_by_byte_internal h (suc fuel) id (create_leaf_snapshot bs ds o) pos bst rst ol)
          (found_at (leaf bs ds o) pos)
          bst
    in_leaf =
        unfold create_leaf_snapshot in
        record {
          result = record {
            node = id;
            snapshot = create_leaf_snapshot bs ds o;
            byte_offset = pos;
            rune_offset = byte_to_rune_offset bs pos;
            leaf_byte_start = bst;
            leaf_rune_start = rst;
            runes_on_line_before_leaf = ol;
          };
          found = refl;
          same_snapshot = refl;
          same_offset = refl;
          same_start = omega arith;
        }
find_leaf_by_byte_internal-Finds (suc fuel) h id (node i j l r) pos bst rst ol here tall =
    let size = byte_count-root_snapshot l in
    let l_view = Represents-view h h.current_fork h.current_revision i l here.1 in
    let r_view = Represents-view h h.current_fork h.current_revision j r here.2 in
    elim (Bool-cases (ltb pos (length (text l)))) [
      | inl q ↦
          rw
            (
              step-left h i j (root_snapshot l) (root_snapshot r) fuel id pos bst rst ol l_view
                  (ap (ltb pos) size ∙ q),
              q,
            )
            (find_leaf_by_byte_internal-Finds fuel h i l pos bst rst ol here.1 (omega arith))
      | inr q ↦
          let place : pos - (root_snapshot l).byte_count ≡ pos - length (text l) =
            omega (arith, size) in
          rw
            (
              step-right h i j (root_snapshot l) (root_snapshot r) fuel id pos bst rst ol l_view
                  r_view (ap (ltb pos) size ∙ q),
              place,
              q,
            )
            (Finds-behind (length (text l)) bst (bst + (root_snapshot l).byte_count)
              (omega (arith, size))
              (find_leaf_by_byte_internal-Finds fuel h j r (pos - length (text l))
                (bst + (root_snapshot l).byte_count) (rst + (root_snapshot l).rune_count)
                (runes_past (root_snapshot l) ol) here.2 (omega arith)))
    ]
