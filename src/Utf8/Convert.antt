-- ===== src/Utf8/Convert.antt =====
-- The conversions between byte and rune offsets of one slice.
use garland.Base.{
  ℕ, zero, suc, ◌+◌, ◌-◌, ◌≤◌, min, ◌≡◌, refl, ap, List, [], ◌∷◌, length, take, drop, arith,
  length-drop, take_all,
}
use native.Mathlib.Nat.{add-zero, suc-add}
use garland.Utf8.{rune_size, rune_count, count_after, byte_to_rune_offset, rune_to_byte_offset}
use garland.Utf8.Count.{rune_size_pos, rune_size-le, rune_size-take, rune_count-cons}

drop-take {ℓ} : {A : Type ℓ} (n k : ℕ) (xs : List A) → drop n (take (n + k) xs) ≡ take k (drop n xs)
drop-take zero k xs = ap (λ j. take j xs) (omega arith)
drop-take (suc n) zero [] = rw (add-zero, take)
drop-take (suc n) (suc k) [] = rw (suc-add, take)
drop-take (suc n) k (x ∷ xs) = rw (suc-add, take) (drop-take n k xs)

rune_count-nil : rune_count [] ≡ 0
unfolding rune_count count_after
rune_count-nil = refl

-- The offset of a rune lies within the data.
pub rune_to_byte_offset-le-length : (bs : List ℕ) (n : ℕ) → rune_to_byte_offset bs n ≤ length bs
unfolding rune_to_byte_offset
rune_to_byte_offset-le-length bs zero = omega arith
rune_to_byte_offset-le-length [] (suc n) = omega arith
rune_to_byte_offset-le-length (b ∷ bs) (suc n) = omega (
  arith,
  rune_to_byte_offset-le-length (drop (rune_size b bs - 1) bs) n,
  length-drop (rune_size b bs - 1) bs,
  rune_size-le b bs,
  rune_size_pos b bs,
)

-- Past the last rune the loop stops at the end of the data.
pub rune_to_byte_offset_end :
    (bs : List ℕ) (n : ℕ) → rune_count bs ≤ n → rune_to_byte_offset bs n ≡ length bs
unfolding rune_to_byte_offset
rune_to_byte_offset_end [] zero h = refl
rune_to_byte_offset_end [] (suc n) h = refl
rune_to_byte_offset_end (b ∷ bs) zero h = absurd (omega (arith, rune_count-cons b bs))
rune_to_byte_offset_end (b ∷ bs) (suc n) h = omega (
  arith,
  rune_count-cons b bs,
  rune_to_byte_offset_end (drop (rune_size b bs - 1) bs) n (omega (arith, rune_count-cons b bs)),
  length-drop (rune_size b bs - 1) bs,
  rune_size-le b bs,
  rune_size_pos b bs,
)

-- The bytes before the n-th rune hold n runes, or all of them.
pub rune_count-take :
    (bs : List ℕ) (n : ℕ) → rune_count (take (rune_to_byte_offset bs n) bs) ≡ min n (rune_count bs)
unfolding rune_to_byte_offset
rune_count-take bs zero = omega (arith, rune_count-nil)
rune_count-take [] (suc n) = omega (arith, rune_count-nil)
rune_count-take (b ∷ bs) (suc n) =
    let sz : ℕ = rune_size b bs in
    let rest : List ℕ = drop (sz - 1) bs in
    let r : ℕ = rune_to_byte_offset rest n in
    let same : rune_size b (take (sz - 1 + r) bs) ≡ sz =
      rune_size-take b bs (sz - 1 + r) (omega (arith, rune_size_pos b bs)) in
    let split : sz + r ≡ suc (sz - 1 + r) = omega (arith, rune_size_pos b bs) in
    rw
      (
        split,
        take,
        rune_count-cons b (take (sz - 1 + r) bs),
        same,
        drop-take (sz - 1) r bs,
        rune_count-cons,
      )
      (omega (arith, rune_count-take rest n))

-- Converting a rune offset to bytes and back gives the offset again, clamped to the rune count.
pub byte_to_rune_offset-rune_to_byte_offset :
    (bs : List ℕ) (n : ℕ)
    → byte_to_rune_offset bs (rune_to_byte_offset bs n) ≡ min n (rune_count bs)
unfolding byte_to_rune_offset
byte_to_rune_offset-rune_to_byte_offset bs n =
    ground (arith, rune_count-take bs n, rune_count-nil, take_all (rune_to_byte_offset bs n) bs)
