-- ===== src/Rope/Build/Starts.antt =====
-- Data in which the starts of runes are close together, as in UTF-8 text.
use garland.Base.{
  ℕ, ◌+◌, ◌-◌, ◌/◌, ◌≤◌, ◌<◌, ◌≡◌, sym, ap, ◌∙◌, true, List, ◌++◌, take, drop, length, length-take,
  length-drop, take-append-drop, get_elem?-append_left, get_elem?-append_right, arith,
}
use garland.Utf8.{starts_at, align_to_rune_boundary}
use garland.Utf8.Align.{align_to_rune_boundary_lem}

-- A start of a rune among the four bytes from here.
pub record StartsBy (bs : List ℕ) (p : ℕ) : Type 0 where
  pub at : ℕ
  pub from : p ≤ at
  pub to : at ≤ p + 3
  pub is_start : starts_at bs at ≡ true

-- Every four bytes have one.
abbrev pub Dense : List ℕ → Type 0
Dense bs = (p : ℕ) → p + 3 < length bs → StartsBy bs p

starts_at-left : (xs ys : List ℕ) (q : ℕ) → q < length xs → starts_at (xs ++ ys) q ≡ starts_at xs q
unfolding starts_at
starts_at-left xs ys q h = rw (starts_at, get_elem?-append_left xs ys q h)

starts_at-right :
    (xs ys : List ℕ) (q : ℕ) → length xs ≤ q → starts_at (xs ++ ys) q ≡ starts_at ys (q - length xs)
unfolding starts_at
starts_at-right xs ys q h = rw (starts_at, get_elem?-append_right xs ys q h)

pub take-Dense : (n : ℕ) (bs : List ℕ) → Dense bs → Dense (take n bs)
take-Dense n bs d p h =
    let size = length-take n bs in
    let s = d p (omega (arith, size)) in
    record {
      at = s.at;
      from = s.from;
      to = s.to;
      is_start =
          sym (starts_at-left (take n bs) (drop n bs) s.at (omega (arith, s.to)))
          ∙ ap (λ xs. starts_at xs s.at) (take-append-drop n bs)
          ∙ s.is_start;
    }

pub drop-Dense : (n : ℕ) (bs : List ℕ) → n ≤ length bs → Dense bs → Dense (drop n bs)
drop-Dense n bs le d p h =
    let size = length-drop n bs in
    let front : length (take n bs) ≡ n = omega (arith, length-take n bs) in
    let s = d (n + p) (omega (arith, size)) in
    record {
      at = s.at - n;
      from = omega (arith, s.from);
      to = omega (arith, s.to);
      is_start =
          ap (λ k. starts_at (drop n bs) (s.at - k)) (sym front)
          ∙ sym (starts_at-right (take n bs) (drop n bs) s.at (omega (arith, front, s.from)))
          ∙ ap (λ xs. starts_at xs s.at) (take-append-drop n bs)
          ∙ s.is_start;
    }

-- In such data of nine bytes or more, the aligned middle lies inside.
pub middle-inside :
    (bs : List ℕ)
    → Dense bs
    → 8 < length bs
    → (0 < align_to_rune_boundary bs (length bs / 2))
      × (align_to_rune_boundary bs (length bs / 2) < length bs)
middle-inside bs d long =
    let s = d (length bs / 2 - 3) (omega arith) in
    let a =
      align_to_rune_boundary_lem bs (length bs / 2) s.at (omega arith) (omega (arith, s.to))
        s.is_start in
    (omega (arith, a.2, s.from), omega (arith, a.0))
