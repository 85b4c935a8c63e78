-- ===== src/Utf8.antt =====
-- Runes in byte slices: the three conversion helpers at the end of tree.go, over the decoding rule
-- of Go's package unicode/utf8.
pub mod Count
pub mod Convert
pub mod Align
pub mod Newline
use garland.Base.{
  ℕ, zero, suc, ◌+◌, ◌-◌, Bool, true, false, ◌&&◌, ◌||◌, List, [], ◌∷◌, length, take, drop,
  get_elem?, ltb, leb, ◌==◌, if◌then◌else◌, Option, none, some,
}

-- utf8.RuneStart: not a continuation byte 10xxxxxx.
unfoldable pub rune_start : ℕ → Bool
rune_start b = ltb b 0x80 || leb 0xC0 b

abbrev within : ℕ → ℕ → ℕ → Bool
within lo hi b = leb lo b && leb b hi

-- The continuation bytes that a first byte asks for; a byte that starts no rune has width 1.
unfoldable pub size2 : List ℕ → ℕ
size2 [] = 1
size2 (c ∷ _) = if within 0x80 0xBF c then 2 else 1

unfoldable pub size3 : ℕ → ℕ → List ℕ → ℕ
size3 lo hi [] = 1
size3 lo hi (_ ∷ []) = 1
size3 lo hi (c ∷ d ∷ _) = if within lo hi c && within 0x80 0xBF d then 3 else 1

unfoldable pub size4 : ℕ → ℕ → List ℕ → ℕ
size4 lo hi [] = 1
size4 lo hi (_ ∷ []) = 1
size4 lo hi (_ ∷ _ ∷ []) = 1
size4 lo hi (c ∷ d ∷ e ∷ _) =
    if within lo hi c && (within 0x80 0xBF d && within 0x80 0xBF e) then 4 else 1

-- The width that utf8.DecodeRune reports for the rune at the head of `b ∷ bs`.
unfoldable pub rune_size : ℕ → List ℕ → ℕ
rune_size b bs =
    if ltb b 0xC2
    then 1
    else if ltb b 0xE0
    then size2 bs
    else if b == 0xE0
    then size3 0xA0 0xBF bs
    else if b == 0xED
    then size3 0x80 0x9F bs
    else if ltb b 0xF0
    then size3 0x80 0xBF bs
    else if b == 0xF0
    then size4 0x90 0xBF bs
    else if ltb b 0xF4
    then size4 0x80 0xBF bs
    else if b == 0xF4
    then size4 0x80 0x8F bs
    else 1

-- utf8.RuneCount, with the bytes still to skip of the rune that was counted last.
pub count_after : ℕ → List ℕ → ℕ
count_after skip [] = 0
count_after (suc k) (b ∷ bs) = count_after k bs
count_after zero (b ∷ bs) = suc (count_after (rune_size b bs - 1) bs)

unfoldable pub rune_count : List ℕ → ℕ
rune_count bs = count_after 0 bs

-- byteToRuneOffset
unfoldable pub byte_to_rune_offset : List ℕ → ℕ → ℕ
byte_to_rune_offset bs off =
    if off == 0 then 0 else if leb (length bs) off then rune_count bs else rune_count (take off bs)

-- runeToByteOffset: the loop stops at the end of the data or after the asked number of runes.
unfoldable pub rune_to_byte_offset : List ℕ → ℕ → ℕ
rune_to_byte_offset bs zero = 0
rune_to_byte_offset [] (suc n) = 0
rune_to_byte_offset (b ∷ bs) (suc n) =
    rune_size b bs + rune_to_byte_offset (drop (rune_size b bs - 1) bs) n

-- data[pos] is the start of a rune
unfoldable pub starts_at : List ℕ → ℕ → Bool
unfolding rune_start
starts_at bs pos = elim (get_elem? bs pos) [ none ↦ false | some b ↦ rune_start b ]

-- The loop of alignToRuneBoundary, `for pos > 0 && !utf8.RuneStart(data[pos]) { pos-- }`.
pub walk_back : List ℕ → ℕ → ℕ
walk_back bs zero = zero
walk_back bs (suc p) = if starts_at bs (suc p) then suc p else walk_back bs p

-- alignToRuneBoundary
unfoldable pub align_to_rune_boundary : List ℕ → ℕ → ℕ
unfolding walk_back
align_to_rune_boundary bs pos =
    if pos == 0 || leb (length bs) pos
    then pos
    else if starts_at bs pos
    then pos
    else walk_back bs pos
