-- ===== src/Rope/Search/Bytes.antt =====
-- The leaf that the search for a byte finds.
use garland.Base.{
  ℕ, zero, suc, ◌+◌, ◌-◌, ◌≤◌, ◌<◌, ◌≡◌, refl, sym, ap, ◌∙◌, true, false, List, [], ◌++◌, length,
  append_assoc, append-nil, length-append, Option, some, ltb, arith, Bool-cases, inl, inr, ltb→lt,
  ltb→ge, ge→ltb, lt→ltb,
}
use garland.Result.{Result, ok, err, invalid_position, ◌>>=◌}
use garland.Utf8.{byte_to_rune_offset}
use garland.Address.{Decoration}
use garland.Node.{Snapshot, create_leaf_snapshot, create_internal_snapshot}
use garland.Heap.{Heap, current, or_invalid}
use garland.Heap.Represents.{
  Rope, leaf, node, text, height, root_snapshot, byte_count-root_snapshot, Here, Represents-view,
}
use garland.Rope.Search.{
  LeafSearchResult, runes_past, find_leaf_by_byte_internal, find_leaf_by_byte,
}

-- A search that found a leaf whose bytes stand in the text so that `pos` falls on the offset in it;
-- the text starts at `start`.
pub record FindsByte (out : Result LeafSearchResult) (bs : List ℕ) (pos start : ℕ) : Type 0 where
  pub result : LeafSearchResult
  pub before : List ℕ
  pub after : List ℕ
  pub found : out ≡ ok result
  pub splits : bs ≡ before ++ (result.snapshot.content ++ after)
  pub leaf_start : result.leaf_byte_start ≡ start + length before
  pub position : length before + result.byte_offset ≡ pos
  pub inside : result.byte_offset ≤ length result.snapshot.content
  pub runes : result.rune_offset ≡ byte_to_rune_offset result.snapshot.content result.byte_offset

finds-left :
    {out : Result LeafSearchResult} (xs ys : List ℕ) (pos start : ℕ)
    → FindsByte out xs pos start
    → FindsByte out (xs ++ ys) pos start
finds-left xs ys pos start p = record {
  result = p.result;
  before = p.before;
  after = p.after ++ ys;
  found = p.found;
  splits =
      ap (λ t. t ++ ys) p.splits
      ∙ append_assoc p.before (p.result.snapshot.content ++ p.after) ys
      ∙ ap (p.before ++◌) (append_assoc p.result.snapshot.content p.after ys);
  leaf_start = p.leaf_start;
  position = p.position;
  inside = p.inside;
  runes = p.runes;
}

finds-right :
    {out : Result LeafSearchResult} (xs ys : List ℕ) (pos start next : ℕ)
    → length xs ≤ pos
    → next ≡ start + length xs
    → FindsByte out ys (pos - length xs) next
    → FindsByte out (xs ++ ys) pos start
finds-right xs ys pos start next le e p = record {
  result = p.result;
  before = xs ++ p.before;
  after = p.after;
  found = p.found;
  splits =
      ap (xs ++◌) p.splits ∙ sym (append_assoc xs p.before (p.result.snapshot.content ++ p.after));
  leaf_start = omega (arith, e, p.leaf_start, length-append xs p.before);
  position = omega (arith, le, p.position, length-append xs p.before);
  inside = p.inside;
  runes = p.runes;
}

module _ (h : Heap) (i j : ℕ) (l r : Snapshot) (fuel id pos byte_start rune_start on_line : ℕ)
    (e : current h i ≡ some l) where
  pub step-left :
      ltb pos l.byte_count ≡ true
      → find_leaf_by_byte_internal h
          (suc fuel)
          id
          (create_internal_snapshot i j l r)
          pos
          byte_start
          rune_start
          on_line
        ≡ find_leaf_by_byte_internal h fuel i l pos byte_start rune_start on_line
  unfolding find_leaf_by_byte_internal create_internal_snapshot
  step-left q = rw (find_leaf_by_byte_internal, e, or_invalid, ◌>>=◌, q)

  pub step-right :
      current h j ≡ some r
      → ltb pos l.byte_count ≡ false
      → find_leaf_by_byte_internal h
          (suc fuel)
          id
          (create_internal_snapshot i j l r)
          pos
          byte_start
          rune_start
          on_line
        ≡ find_leaf_by_byte_internal h fuel j r
            (pos - l.byte_count)
            (byte_start + l.byte_count)
            (rune_start + l.rune_count)
            (runes_past l on_line)
  unfolding find_leaf_by_byte_internal create_internal_snapshot
  step-right e' q = rw (find_leaf_by_byte_internal, e, or_invalid, ◌>>=◌, q, e')

in_leaf :
    (h : Heap) (fuel id : ℕ) (bs : List ℕ) (ds : List Decoration) (o : Option ℕ)
    (pos byte_start rune_start on_line : ℕ)
    → pos ≤ length bs
    → FindsByte
        (find_leaf_by_byte_internal h
          (suc fuel)
          id
          (create_leaf_snapshot bs ds o)
          pos
          byte_start
          rune_start
          on_line)
        bs
        pos
        byte_start
unfolding find_leaf_by_byte_internal create_leaf_snapshot
in_leaf h fuel id bs ds o pos byte_start rune_start on_line le = record {
  result = record {
    node = id;
    snapshot = create_leaf_snapshot bs ds o;
    byte_offset = pos;
    rune_offset = byte_to_rune_offset bs pos;
    leaf_byte_start = byte_start;
    leaf_rune_start = rune_start;
    runes_on_line_before_leaf = on_line;
  };
  before = [];
  after = [];
  found = refl;
  splits = sym (append-nil bs);
  leaf_start = omega arith;
  position = omega arith;
  inside = le;
  runes = refl;
}

-- With fuel for the height of the rope, the descent for a position within the text ends in the leaf
-- that holds it.
pub find_leaf_by_byte_internal-FindsByte :
    (fuel : ℕ) (h : Heap) (id : ℕ) (t : Rope) (pos byte_start rune_start on_line : ℕ)
    → Here h id t
    → height t ≤ fuel
    → pos ≤ length (text t)
    → FindsByte
        (find_leaf_by_byte_internal h fuel id (root_snapshot t) pos byte_start rune_start on_line)
        (text t)
        pos
        byte_start
unfolding root_snapshot create_leaf_snapshot
find_leaf_by_byte_internal-FindsByte zero h id (leaf bs ds o) pos bst rst ol here tall le =
    absurd (omega arith)
find_leaf_by_byte_internal-FindsByte zero h id (node i j l r) pos bst rst ol here tall le =
    absurd (omega arith)
find_leaf_by_byte_internal-FindsByte (suc fuel) h id (leaf bs ds o) pos bst rst ol here tall le =
    in_leaf h fuel id bs ds o pos bst rst ol le
find_leaf_by_byte_internal-FindsByte (suc fuel) h id (node i j l r) pos bst rst ol here tall le =
    let size = byte_count-root_snapshot l in
    let l_view = Represents-view h h.current_fork h.current_revision i l here.1 in
    let r_view = Represents-view h h.current_fork h.current_revision j r here.2 in
    elim (Bool-cases (ltb pos (root_snapshot l).byte_count)) [
      | inl q ↦
          rw (step-left h i j (root_snapshot l) (root_snapshot r) fuel id pos bst rst ol l_view q) (
            finds-left (text l) (text r) pos bst (
              find_leaf_by_byte_internal-FindsByte fuel h i l pos bst rst ol here.1 (omega arith)
                (omega (arith, size, ltb→lt _ _ q))))
      | inr q ↦
          let place : pos - (root_snapshot l).byte_count ≡ pos - length (text l) =
            omega (arith, size) in
          rw
            (
              step-right h i j (root_snapshot l) (root_snapshot r) fuel id pos bst rst ol l_view
                  r_view q,
              place,
            )
            (finds-right (text l) (text r) pos bst (bst + (root_snapshot l).byte_count)
              (omega (arith, size, ltb→ge _ _ q)) (omega (arith, size))
              (find_leaf_by_byte_internal-FindsByte fuel h j r (pos - length (text l))
                (bst + (root_snapshot l).byte_count) (rst + (root_snapshot l).rune_count)
                (runes_past (root_snapshot l) ol) here.2 (omega arith)
                (omega (arith, length-append (text l) (text r)))))
    ]

-- With fuel for the height of the rope, the search from the root finds the leaf of every position
-- up to the end of the text: the leaf's bytes stand in the text where it says, and the position
-- falls on the offset that it gives.
pub find_leaf_by_byte-FindsByte :
    (fuel : ℕ) (h : Heap) (root : ℕ) (t : Rope) (pos : ℕ)
    → Here h root t
    → height t ≤ fuel
    → pos ≤ length (text t)
    → FindsByte (find_leaf_by_byte h fuel root pos) (text t) pos 0
unfolding find_leaf_by_byte
find_leaf_by_byte-FindsByte fuel h root t pos here tall le =
    let size = byte_count-root_snapshot t in
    let within : ltb (root_snapshot t).byte_count pos ≡ false = ge→ltb _ _ (omega (arith, size)) in
    rw (Represents-view h h.current_fork h.current_revision root t here, within)
      (find_leaf_by_byte_internal-FindsByte fuel h root t pos 0 0 0 here tall le)

-- A position behind the end of the text is refused.
pub find_leaf_by_byte-invalid :
    (fuel : ℕ) (h : Heap) (root : ℕ) (t : Rope) (pos : ℕ)
    → Here h root t
    → length (text t) < pos
    → find_leaf_by_byte h fuel root pos ≡ err invalid_position
unfolding find_leaf_by_byte
find_leaf_by_byte-invalid fuel h root t pos here gt =
    let size = byte_count-root_snapshot t in
    let behind : ltb (root_snapshot t).byte_count pos ≡ true = lt→ltb _ _ (omega (arith, size)) in
    rw (Represents-view h h.current_fork h.current_revision root t here, behind)
