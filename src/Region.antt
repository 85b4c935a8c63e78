-- ===== src/Region.antt =====
-- The buffer of an optimized region (optimized_region.go): ByteBufferRegion, and the marks that its
-- handle keeps, with positions from the start of the region. Offsets and lengths are not negative:
-- the source's tests for that have nothing to reject here.
pub mod Buffer
pub mod Marks
use garland.Base.{
  ℕ, ◌+◌, ◌-◌, Bool, ◌&&◌, ◌||◌, List, [], ◌∷◌, ◌++◌, map, take, drop, length, ltb, leb, ◌==◌,
  if◌then◌else◌,
}
use garland.Result.{Result, ok, err, invalid_position}
use garland.Address.{Decoration}
use garland.Utf8.{rune_count}
use garland.Node.Text.{newlines}

-- ByteBufferRegion
pub record ByteBufferRegion : Type 0 where
  pub content : List ℕ
  pub runes : ℕ
  pub lines : ℕ

-- NewByteBufferRegion, with recalculateCounts
unfoldable pub new_region : List ℕ → ByteBufferRegion
new_region bytes = record { content = bytes; runes = rune_count bytes; lines = newlines bytes }

-- InsertBytes
unfoldable pub region_insert : ℕ → List ℕ → ByteBufferRegion → Result ByteBufferRegion
region_insert offset bytes r =
    if ltb (length r.content) offset
    then err invalid_position
    else ok (record {
      content = take offset r.content ++ (bytes ++ drop offset r.content);
      runes = r.runes + rune_count bytes;
      lines = r.lines + newlines bytes;
    })

-- DeleteBytes
unfoldable pub region_delete : ℕ → ℕ → ByteBufferRegion → Result ByteBufferRegion
region_delete offset len r =
    if ltb (length r.content) (offset + len)
    then err invalid_position
    else (let deleted : List ℕ = take len (drop offset r.content) in
        ok (record {
          content = take offset r.content ++ drop (offset + len) r.content;
          runes = r.runes - rune_count deleted;
          lines = r.lines - newlines deleted;
        }))

-- ReadBytes
unfoldable pub region_read : ℕ → ℕ → ByteBufferRegion → Result (List ℕ)
region_read offset len r =
    if ltb (length r.content) (offset + len)
    then err invalid_position
    else ok (take len (drop offset r.content))

-- adjustDecorationsForInsert
unfoldable pub adjust_for_insert : ℕ → ℕ → Bool → List Decoration → List Decoration
adjust_for_insert offset len insert_before = map (λ d.
    if ltb offset d.position || ((d.position == offset) && insert_before)
    then record d { position = d.position + len }
    else d)

-- adjustDecorationsForDelete: the marks that are kept, and those in the range.
unfoldable pub adjust_for_delete : ℕ → ℕ → List Decoration → List Decoration × List Decoration
adjust_for_delete offset len [] = ([], [])
adjust_for_delete offset len (d ∷ ds) =
    let rest = adjust_for_delete offset len ds in
    if ltb d.position offset
    then (d ∷ rest.0, rest.1)
    else if leb (offset + len) d.position
    then (record d { position = d.position - len } ∷ rest.0, rest.1)
    else (rest.0, d ∷ rest.1)
