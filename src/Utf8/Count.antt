-- ===== src/Utf8/Count.antt =====
-- The widths of runes, and how many runes a slice holds.
use garland.Base.{ℕ, zero, suc, ◌-◌, ◌≤◌, ◌≡◌, refl, ap, List, [], ◌∷◌, length, take, drop, arith}
use garland.Utf8.{rune_size, size2, size3, size4, count_after, rune_count}

pub rune_size_pos : (b : ℕ) (bs : List ℕ) → 1 ≤ rune_size b bs
unfolding rune_size size2 size3 size4
rune_size_pos b [] = ground arith
rune_size_pos b (c ∷ []) = ground arith
rune_size_pos b (c ∷ d ∷ []) = ground arith
rune_size_pos b (c ∷ d ∷ e ∷ bs) = ground arith

-- A rune ends within the data.
pub rune_size-le : (b : ℕ) (bs : List ℕ) → rune_size b bs ≤ suc (length bs)
unfolding rune_size size2 size3 size4
rune_size-le b [] = ground arith
rune_size-le b (c ∷ []) = ground arith
rune_size-le b (c ∷ d ∷ []) = ground arith
rune_size-le b (c ∷ d ∷ e ∷ bs) = ground arith

-- What follows the bytes of a whole rune does not change its width.
size2-take : (bs : List ℕ) (k : ℕ) → size2 bs ≤ suc k → size2 (take k bs) ≡ size2 bs
unfolding size2
size2-take [] zero h = refl
size2-take [] (suc k) h = refl
size2-take (c ∷ bs) zero h = ground arith
size2-take (c ∷ bs) (suc k) h = refl

size3-take :
    (lo hi : ℕ) (bs : List ℕ) (k : ℕ)
    → size3 lo hi bs ≤ suc k
    → size3 lo hi (take k bs) ≡ size3 lo hi bs
unfolding size3
size3-take lo hi [] zero h = refl
size3-take lo hi [] (suc k) h = refl
size3-take lo hi (c ∷ []) zero h = refl
size3-take lo hi (c ∷ []) (suc zero) h = refl
size3-take lo hi (c ∷ []) (suc (suc k)) h = refl
size3-take lo hi (c ∷ d ∷ bs) zero h = ground arith
size3-take lo hi (c ∷ d ∷ bs) (suc zero) h = ground arith
size3-take lo hi (c ∷ d ∷ bs) (suc (suc k)) h = refl

size4-take :
    (lo hi : ℕ) (bs : List ℕ) (k : ℕ)
    → size4 lo hi bs ≤ suc k
    → size4 lo hi (take k bs) ≡ size4 lo hi bs
unfolding size4
size4-take lo hi [] zero h = refl
size4-take lo hi [] (suc k) h = refl
size4-take lo hi (c ∷ []) zero h = refl
size4-take lo hi (c ∷ []) (suc zero) h = refl
size4-take lo hi (c ∷ []) (suc (suc k)) h = refl
size4-take lo hi (c ∷ d ∷ []) zero h = refl
size4-take lo hi (c ∷ d ∷ []) (suc zero) h = refl
size4-take lo hi (c ∷ d ∷ []) (suc (suc zero)) h = refl
size4-take lo hi (c ∷ d ∷ []) (suc (suc (suc k))) h = refl
size4-take lo hi (c ∷ d ∷ e ∷ bs) zero h = ground arith
size4-take lo hi (c ∷ d ∷ e ∷ bs) (suc zero) h = ground arith
size4-take lo hi (c ∷ d ∷ e ∷ bs) (suc (suc zero)) h = ground arith
size4-take lo hi (c ∷ d ∷ e ∷ bs) (suc (suc (suc k))) h = refl

pub rune_size-take :
    (b : ℕ) (bs : List ℕ) (k : ℕ)
    → rune_size b bs ≤ suc k
    → rune_size b (take k bs) ≡ rune_size b bs
unfolding rune_size
rune_size-take b bs k h = ground (
  arith,
  size2-take bs k,
  size3-take 0xA0 0xBF bs k,
  size3-take 0x80 0x9F bs k,
  size3-take 0x80 0xBF bs k,
  size4-take 0x90 0xBF bs k,
  size4-take 0x80 0xBF bs k,
  size4-take 0x80 0x8F bs k,
)

pub count_after-drop : (k : ℕ) (bs : List ℕ) → count_after k bs ≡ count_after 0 (drop k bs)
unfolding count_after
count_after-drop zero bs = refl
count_after-drop (suc k) [] = refl
count_after-drop (suc k) (b ∷ bs) = count_after-drop k bs

pub rune_count-cons :
    (b : ℕ) (bs : List ℕ) → rune_count (b ∷ bs) ≡ suc (rune_count (drop (rune_size b bs - 1) bs))
unfolding rune_count count_after
rune_count-cons b bs = ap suc (count_after-drop (rune_size b bs - 1) bs)

count_after-le : (k : ℕ) (bs : List ℕ) → count_after k bs ≤ length bs
unfolding count_after
count_after-le k [] = omega arith
count_after-le (suc k) (b ∷ bs) = omega (arith, count_after-le k bs)
count_after-le zero (b ∷ bs) = omega (arith, count_after-le (rune_size b bs - 1) bs)

pub rune_count-le-length : (bs : List ℕ) → rune_count bs ≤ length bs
unfolding rune_count
rune_count-le-length bs = count_after-le 0 bs
