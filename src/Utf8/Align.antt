-- ===== src/Utf8/Align.antt =====
-- Alignment to the start of a rune.
use garland.Base.{ℕ, zero, suc, ◌≤◌, ◌<◌, ◌≡◌, refl, ap, List, length, true, ◌⊎◌, arith, inl}
use garland.Utf8.{starts_at, walk_back, align_to_rune_boundary}

pub walk_back-le : (bs : List ℕ) (p : ℕ) → walk_back bs p ≤ p
unfolding walk_back
walk_back-le bs zero = omega arith
walk_back-le bs (suc p) = ground (arith, walk_back-le bs p)

walk_back-starts_at :
    (bs : List ℕ) (p : ℕ) → (walk_back bs p ≡ 0) ⊎ (starts_at bs (walk_back bs p) ≡ true)
unfolding walk_back
walk_back-starts_at bs zero = inl refl
walk_back-starts_at bs (suc p) = ground (arith, walk_back-starts_at bs p)

-- No start of a rune is passed over.
walk_back-last : (bs : List ℕ) (p q : ℕ) → q ≤ p → starts_at bs q ≡ true → q ≤ walk_back bs p
unfolding walk_back
walk_back-last bs zero q h s = omega arith
walk_back-last bs (suc p) q h s =
    ground (arith, walk_back-last bs p q, ap (starts_at bs) {x = q} {y = suc p})

-- Aligning a position inside the data gives a start of a rune, or 0, at or before it, and no start
-- of a rune at or before the position lies behind the result.
pub align_to_rune_boundary_lem :
    (bs : List ℕ) (pos q : ℕ)
    → pos < length bs
    → q ≤ pos
    → starts_at bs q ≡ true
    → (align_to_rune_boundary bs pos ≤ pos)
      × ((align_to_rune_boundary bs pos ≡ 0)
          ⊎ (starts_at bs (align_to_rune_boundary bs pos) ≡ true))
      × (q ≤ align_to_rune_boundary bs pos)
unfolding align_to_rune_boundary
align_to_rune_boundary_lem bs pos q h le s = (
  ground (arith, walk_back-le bs pos),
  ground (arith, walk_back-starts_at bs pos),
  ground (arith, walk_back-last bs pos q),
)
