-- ===== src/Utf8/Newline.antt =====
-- A newline is a rune of its own, so rune counts add up across it.
use garland.Base.{
  ℕ, zero, suc, ◌+◌, ◌-◌, ◌≤◌, ◌≡◌, refl, List, [], ◌∷◌, ◌++◌, length, arith, append_assoc, ◌≡⟨◌⟩◌,
  ◌∎,
}
use garland.Utf8.{rune_size, size2, size3, size4, rune_count, count_after}

-- A rune ends before a newline that follows its first byte.
rune_size_newline :
    (b : ℕ) (us ys : List ℕ)
    → (rune_size b (us ++ 10 ∷ ys) ≡ rune_size b (us ++ 10 ∷ []))
      × (rune_size b (us ++ 10 ∷ ys) ≤ suc (length us))
unfolding rune_size size2 size3 size4
rune_size_newline b [] [] = (refl, ground arith)
rune_size_newline b [] (y ∷ []) = (ground arith, ground arith)
rune_size_newline b [] (y ∷ z ∷ ys) = (ground arith, ground arith)
rune_size_newline b (c ∷ []) [] = (refl, ground arith)
rune_size_newline b (c ∷ []) (y ∷ ys) = (ground arith, ground arith)
rune_size_newline b (c ∷ d ∷ []) ys = (refl, ground arith)
rune_size_newline b (c ∷ d ∷ e ∷ us) ys = (refl, ground arith)

size-newline : (ys : List ℕ) → rune_size 10 ys ≡ 1
unfolding rune_size
size-newline ys = refl

count_after_newline :
    (k : ℕ) (us ys : List ℕ)
    → k ≤ length us
    → count_after k (us ++ 10 ∷ ys) ≡ count_after k (us ++ 10 ∷ []) + count_after 0 ys
unfolding count_after
count_after_newline zero [] ys h = rw (size-newline ys) (omega arith)
count_after_newline (suc k) [] ys h = absurd (omega arith)
count_after_newline (suc k) (b ∷ us) ys h = count_after_newline k us ys (omega arith)
count_after_newline zero (b ∷ us) ys h =
    let r : ℕ = rune_size b (us ++ 10 ∷ []) in
    let (same, le) = rune_size_newline b us ys in
    rw same (omega (arith, count_after_newline (r - 1) us ys (omega arith)))

pub rune_count_newline :
    (us ys : List ℕ) → rune_count (us ++ 10 ∷ ys) ≡ rune_count (us ++ 10 ∷ []) + rune_count ys
unfolding rune_count
rune_count_newline us ys = count_after_newline 0 us ys (omega arith)

-- Counting runes may start anew behind `bs`.
abbrev pub IsCut : List ℕ → Type 0
IsCut bs = (ys : List ℕ) → rune_count (bs ++ ys) ≡ rune_count bs + rune_count ys

pub nil-IsCut : IsCut []
unfolding rune_count count_after
nil-IsCut ys = omega arith

pub line-IsCut : (bs us : List ℕ) → IsCut bs → IsCut (bs ++ (us ++ 10 ∷ []))
line-IsCut bs us cut ys =
    rune_count ((bs ++ (us ++ 10 ∷ [])) ++ ys)
    ≡⟨ (simp append_assoc) ⟩ rune_count (bs ++ (us ++ 10 ∷ ys))
    ≡⟨ cut (us ++ 10 ∷ ys) ⟩ rune_count bs + rune_count (us ++ 10 ∷ ys)
    ≡⟨ omega (arith, rune_count_newline us ys, cut (us ++ 10 ∷ [])) ⟩
      rune_count (bs ++ (us ++ 10 ∷ [])) + rune_count ys ∎
