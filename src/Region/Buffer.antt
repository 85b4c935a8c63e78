-- ===== src/Region/Buffer.antt =====
-- Insertions, deletions and reads of a region's buffer.
use garland.Base.{
  ℕ, ◌+◌, ◌-◌, ◌≤◌, ◌≡◌, sym, ap, ◌∙◌, false, List, ◌++◌, take, drop, length, ltb, arith,
  length-append, length-take, length-drop, take-append-drop, take-append_left, drop-append_right,
  drop_add, ge→ltb, take_all,
}
use garland.Result.{ok, ◌>>=◌}
use garland.Utf8.{rune_count}
use garland.Node.Text.{newlines}
use garland.Region.{ByteBufferRegion, region_insert, region_delete, region_read}

-- The parts of a content that `bytes` were put into at `offset`.
module _ (offset : ℕ) (bytes bs : List ℕ) (le : offset ≤ length bs) where
  front : length (take offset bs) ≡ offset
  front = omega (arith, length-take offset bs)

  size : length (take offset bs ++ (bytes ++ drop offset bs)) ≡ length bs + length bytes
  size = omega (
    arith,
    length-append (take offset bs) (bytes ++ drop offset bs),
    length-append bytes (drop offset bs),
    length-drop offset bs,
    front,
  )

  behind-front : drop offset (take offset bs ++ (bytes ++ drop offset bs)) ≡ bytes ++ drop offset bs
  behind-front =
      let none_left : offset - length (take offset bs) ≡ 0 = omega (arith, front) in
      drop-append_right offset (take offset bs) (bytes ++ drop offset bs) (omega (arith, front))
      ∙ ap (λ k. drop k (bytes ++ drop offset bs)) none_left

  middle : take (length bytes) (drop offset (take offset bs ++ (bytes ++ drop offset bs))) ≡ bytes
  middle =
      ap (take (length bytes)) behind-front
      ∙ take-append_left (length bytes) bytes (drop offset bs) (omega arith)
      ∙ take_all (length bytes) bytes (omega arith)

  rest : drop (offset + length bytes) (take offset bs ++ (bytes ++ drop offset bs)) ≡ drop offset bs
  rest =
      let none_left : length bytes - length bytes ≡ 0 = omega arith in
      sym (drop_add offset (length bytes) (take offset bs ++ (bytes ++ drop offset bs)))
      ∙ ap (drop (length bytes)) behind-front
      ∙ drop-append_right (length bytes) bytes (drop offset bs) (omega arith)
      ∙ ap (λ k. drop k (drop offset bs)) none_left

  start : take offset (take offset bs ++ (bytes ++ drop offset bs)) ≡ take offset bs
  start =
      take-append_left offset (take offset bs) (bytes ++ drop offset bs) (omega (arith, front))
      ∙ take_all offset (take offset bs) (omega (arith, front))

  whole :
      take offset (take offset bs ++ (bytes ++ drop offset bs))
        ++ drop (offset + length bytes) (take offset bs ++ (bytes ++ drop offset bs))
      ≡ bs
  whole =
      ap (λ x. x ++ drop (offset + length bytes) (take offset bs ++ (bytes ++ drop offset bs)))
        start
      ∙ ap (take offset bs ++◌) rest
      ∙ take-append-drop offset bs

-- Deleting what was inserted gives the region back, with its counts, and reading it before gives
-- what was inserted, at every offset up to the end of the region.
pub region_delete-region_insert :
    (offset : ℕ) (bytes : List ℕ) (r : ByteBufferRegion)
    → offset ≤ length r.content
    → ((region_insert offset bytes r >>= region_delete offset (length bytes)) ≡ ok r)
      × ((region_insert offset bytes r >>= region_read offset (length bytes)) ≡ ok bytes)
unfolding region_insert region_delete region_read
region_delete-region_insert offset bytes r le =
    let inside : ltb (length r.content) offset ≡ false = ge→ltb _ _ le in
    let fits : ltb (length (take offset r.content ++ (bytes ++ drop offset r.content)))
          (offset + length bytes)
        ≡ false =
      ge→ltb _ _ (omega (arith, size offset bytes r.content le)) in
    let got = middle offset bytes r.content le in
    let runes_back : r.runes + rune_count bytes - rune_count bytes ≡ r.runes = omega arith in
    let lines_back : r.lines + newlines bytes - newlines bytes ≡ r.lines = omega arith in
    (
      rw (inside, ◌>>=◌, fits, got)
          (λ i. ok (record {
            content = whole offset bytes r.content le i;
            runes = runes_back i;
            lines = lines_back i;
          })),
      rw (inside, ◌>>=◌, fits, got),
    )
