-- ===== src/Node/Text.antt =====
-- What the line index of a leaf means, said of the text alone.
use garland.Base.{
  ℕ, suc, ◌+◌, ◌≡◌, refl, ap, false, List, [], ◌∷◌, ◌++◌, length, take, ◌==◌, if◌then◌else◌, none,
  some, arith, Bool-cases, Option-cases, inl, inr, ==→eq, drop, ◌∙◌, length-append, append_assoc,
}
use garland.Address.{LineStart}
use garland.Node.{index_newline}
use garland.Utf8.{rune_count}

-- The number of newlines.
abbrev pub newlines : List ℕ → ℕ
newlines [] = 0
newlines (b ∷ bs) = (if b == 10 then 1 else 0) + newlines bs

-- The text behind the last newline; the whole text, if it has none.
abbrev pub last_line : List ℕ → List ℕ
last_line [] = []
last_line (b ∷ bs) = if newlines bs == 0 then (if b == 10 then bs else b ∷ bs) else last_line bs

-- The offsets in `0 < p < length` that a newline stands before, the text starting at offset `at`.
abbrev pub starts_from : ℕ → List ℕ → List ℕ
starts_from at [] = []
starts_from at (_ ∷ []) = []
starts_from at (b ∷ c ∷ bs) =
    if b == 10 then suc at ∷ starts_from (suc at) (c ∷ bs) else starts_from (suc at) (c ∷ bs)

-- The index entry for the line that starts at a byte offset.
abbrev pub line_at : List ℕ → ℕ → LineStart
line_at bs p = record { byte_offset = p; rune_offset = rune_count (take p bs) }

pub newlines-append : (xs ys : List ℕ) → newlines (xs ++ ys) ≡ newlines xs + newlines ys
newlines-append [] ys = omega arith
newlines-append (x ∷ xs) ys = omega (arith, newlines-append xs ys)

-- A text with a first newline at `i`.
pub record Line (bs : List ℕ) (i : ℕ) : Type 0 where
  pub front : List ℕ
  pub back : List ℕ
  pub parts : bs ≡ front ++ 10 ∷ back
  pub size : length front ≡ i
  pub plain : newlines front ≡ 0

pub index_newline-some : (bs : List ℕ) (i : ℕ) → index_newline bs ≡ some i → Line bs i
unfolding index_newline
index_newline-some [] i h = cc
index_newline-some (b ∷ bs) i h = elim (Bool-cases (b == 10)) [
  | inl e ↦ record {
    front = [];
    back = bs;
    parts = ap (λ x. x ∷ bs) (==→eq b 10 e);
    size = ground arith;
    plain = refl;
  }
  | inr n ↦ elim (Option-cases (index_newline bs)) [
    | inl e ↦ absurd (ground arith)
    | inr (j, e) ↦
        let l = index_newline-some bs j e in
        record {
          front = b ∷ l.front;
          back = l.back;
          parts = ap (b ∷◌) l.parts;
          size = ground (arith, l.size);
          plain = ground (arith, l.plain);
        }
  ]
]

pub index_newline-none : (bs : List ℕ) → index_newline bs ≡ none → newlines bs ≡ 0
unfolding index_newline
index_newline-none [] h = refl
index_newline-none (b ∷ bs) h = ground (arith, index_newline-none bs)

pub append_line : (us bs : List ℕ) → (us ++ 10 ∷ []) ++ bs ≡ us ++ 10 ∷ bs
append_line us bs = simp append_assoc

pub take_prefix : (us bs : List ℕ) → take (length us) (us ++ bs) ≡ us
take_prefix [] bs = refl
take_prefix (u ∷ us) bs = ap (u ∷◌) (take_prefix us bs)

pub drop_prefix : (us bs : List ℕ) → drop (length us) (us ++ bs) ≡ bs
drop_prefix [] bs = refl
drop_prefix (u ∷ us) bs = drop_prefix us bs

module _ {bs : List ℕ} {i : ℕ} (l : Line bs i) where
  length-line : length (l.front ++ 10 ∷ []) ≡ suc i
  length-line = omega (arith, length-append l.front (10 ∷ []), l.size)

  pub Line-take : take (suc i) bs ≡ l.front ++ 10 ∷ []
  Line-take =
      rw (l.parts, ← append_line l.front l.back, ← length-line)
        (take_prefix (l.front ++ 10 ∷ []) l.back)

  pub Line-drop : drop (suc i) bs ≡ l.back
  Line-drop =
      rw (l.parts, ← append_line l.front l.back, ← length-line)
        (drop_prefix (l.front ++ 10 ∷ []) l.back)

  pub Line-newlines : newlines bs ≡ suc (newlines l.back)
  Line-newlines = rw l.parts (omega (arith, newlines-append l.front (10 ∷ l.back), l.plain))

  pub Line-length : length bs ≡ suc i + length l.back
  Line-length = rw l.parts (omega (arith, length-append l.front (10 ∷ l.back), l.size))

-- The lines behind a first newline.
pub starts_from-line :
    (at : ℕ) (us : List ℕ) (c : ℕ) (bs : List ℕ)
    → newlines us ≡ 0
    → starts_from at (us ++ 10 ∷ c ∷ bs)
      ≡ (at + suc (length us)) ∷ starts_from (at + suc (length us)) (c ∷ bs)
starts_from-line at [] c bs h = ap (λ k. k ∷ starts_from k (c ∷ bs)) (omega arith)
starts_from-line at (u ∷ []) c bs h =
    let plain : (u == 10) ≡ false = ground arith in
    rw plain
      (starts_from-line (suc at) [] c bs refl ∙ ap (λ k. k ∷ starts_from k (c ∷ bs)) (omega arith))
starts_from-line at (u ∷ v ∷ us) c bs h =
    let plain : (u == 10) ≡ false = ground arith in
    rw plain (
      starts_from-line (suc at) (v ∷ us) c bs (ground arith)
      ∙ ap (λ k. k ∷ starts_from k (c ∷ bs)) (omega arith))

pub starts_from-last :
    (at : ℕ) (us : List ℕ) → newlines us ≡ 0 → starts_from at (us ++ 10 ∷ []) ≡ []
starts_from-last at [] h = refl
starts_from-last at (u ∷ []) h = ground arith
starts_from-last at (u ∷ v ∷ us) h = ground (arith, starts_from-last (suc at) (v ∷ us))

pub starts_from-plain : (at : ℕ) (us : List ℕ) → newlines us ≡ 0 → starts_from at us ≡ []
starts_from-plain at [] h = refl
starts_from-plain at (u ∷ []) h = refl
starts_from-plain at (u ∷ v ∷ us) h = ground (arith, starts_from-plain (suc at) (v ∷ us))

pub last_line-plain : (us : List ℕ) → newlines us ≡ 0 → last_line us ≡ us
last_line-plain [] h = refl
last_line-plain (u ∷ us) h = ground arith

pub last_line-line : (us bs : List ℕ) → last_line (us ++ 10 ∷ bs) ≡ last_line bs
last_line-line [] bs = ground (arith, last_line-plain bs)
last_line-line (u ∷ us) bs = ground (arith, newlines-append us (10 ∷ bs), last_line-line us bs)
