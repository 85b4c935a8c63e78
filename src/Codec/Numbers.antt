-- ===== src/Codec/Numbers.antt =====
-- Reading back a number that was written in decimal.
use garland.Base.{
  ℕ, zero, suc, ◌+◌, ◌-◌, ◌*◌, ◌/◌, ◌^◌, ◌≤◌, ◌<◌, ◌≡◌, refl, sym, ap, ◌∙◌, true, List, [], ◌∷◌,
  ◌++◌, ◌==◌, arith, Bool-cases, inl, inr, ==→eq, ==→ne, le→leb,
}
use mathlib.Core.List.{reverse, reverse-cons}
use garland.Result.{ok, ok_inj}
use garland.Codec.{
  digits, format_uint64, is_digit, add_digit, parse_from, parse_uint64, decode_position,
}

-- The value of digits, the lowest first.
pub value : List ℕ → ℕ
value [] = 0
value (c ∷ cs) = (c - 48) + 10 * value cs

abbrev pub AllDigits : List ℕ → Type 0
AllDigits [] = 0 ≤ 0
AllDigits (c ∷ cs) = (48 ≤ c) × (c ≤ 57) × AllDigits cs

value-digits : (fuel n : ℕ) → n ≤ fuel → value (digits fuel n) ≡ n
unfolding value digits
value-digits zero n le = omega arith
value-digits (suc fuel) n le = elim (Bool-cases (n == 0)) [
  | inl q ↦ rw q (omega (arith, ==→eq n 0 q))
  | inr q ↦
      rw q (omega (arith, ==→ne n 0 q, value-digits fuel (n / 10) (omega (arith, ==→ne n 0 q))))
]

pub digits-AllDigits : (fuel n : ℕ) → AllDigits (digits fuel n)
unfolding digits
digits-AllDigits zero n = omega arith
digits-AllDigits (suc fuel) n = elim (Bool-cases (n == 0)) [
  | inl q ↦ rw q (omega arith)
  | inr q ↦ rw q (omega arith, omega arith, digits-AllDigits fuel (n / 10))
]

parse_from-append :
    (xs ys : List ℕ) (result : ℕ)
    → parse_from result (xs ++ ys) ≡ parse_from (parse_from result xs) ys
unfolding parse_from
parse_from-append [] ys result = refl
parse_from-append (x ∷ xs) ys result = parse_from-append xs ys _

pub digit-test : (c : ℕ) → 48 ≤ c → c ≤ 57 → is_digit c ≡ true
digit-test c lo hi = rw (le→leb 48 c lo, le→leb c 57 hi)

-- One digit more, when the number still fits.
add_digit-value :
    (c n : ℕ) → 48 ≤ c → (c - 48) + 10 * n < 2 ^ 64 → add_digit n c ≡ (c - 48) + 10 * n
add_digit-value c n lo fits = omega arith

parse_from-reverse :
    (ds : List ℕ) → AllDigits ds → value ds < 2 ^ 64 → parse_from 0 (reverse ds) ≡ value ds
unfolding parse_from value
parse_from-reverse [] h fits = refl
parse_from-reverse (c ∷ cs) h fits =
    let ih = parse_from-reverse cs h.2 (omega arith) in
    ap (parse_from 0) (reverse-cons c cs)
    ∙ parse_from-append (reverse cs) (c ∷ []) 0
    ∙ rw (ih, digit-test c h.0 h.1) (add_digit-value c (value cs) h.0 fits)

-- Every number of 64 bits is read back as it was written.
pub parse_uint64-format_uint64 : (n : ℕ) → n < 2 ^ 64 → parse_uint64 (format_uint64 n) ≡ n
unfolding parse_uint64 format_uint64
parse_uint64-format_uint64 n fits = elim (Bool-cases (n == 0)) [
  | inl q ↦ rw q (sym (==→eq n 0 q))
  | inr q ↦
      let same = value-digits n n (omega arith) in
      rw q (parse_from-reverse (digits n n) (digits-AllDigits n n) (omega (arith, same)) ∙ same)
]

pub decode_position-append :
    (xs ys : List ℕ) (p q : ℕ)
    → decode_position p xs ≡ ok q
    → decode_position p (xs ++ ys) ≡ decode_position q ys
unfolding decode_position
decode_position-append [] ys p q e = ap (λ k. decode_position k ys) (ok_inj e)
decode_position-append (x ∷ xs) ys p q e = elim (Bool-cases (is_digit x)) [
  | inl d ↦
      rw (decode_position, d)
        (decode_position-append xs ys (add_digit p x) q (rw (decode_position, d) at e))
  | inr d ↦ absurd (cc (rw (decode_position, d) at e))
]

decode_position-reverse :
    (ds : List ℕ)
    → AllDigits ds
    → value ds < 2 ^ 64
    → decode_position 0 (reverse ds) ≡ ok (value ds)
unfolding decode_position value
decode_position-reverse [] h fits = refl
decode_position-reverse (c ∷ cs) h fits =
    let ih = decode_position-reverse cs h.2 (omega arith) in
    ap (decode_position 0) (reverse-cons c cs)
    ∙ decode_position-append (reverse cs) (c ∷ []) 0 (value cs) ih
    ∙ rw (digit-test c h.0 h.1) (ap ok (add_digit-value c (value cs) h.0 fits))

-- The strict reader of positions agrees.
pub decode_position-format_uint64 :
    (n : ℕ) → n < 2 ^ 64 → decode_position 0 (format_uint64 n) ≡ ok n
unfolding decode_position format_uint64
decode_position-format_uint64 n fits = elim (Bool-cases (n == 0)) [
  | inl q ↦ rw q (ap ok (sym (==→eq n 0 q)))
  | inr q ↦
      let same = value-digits n n (omega arith) in
      rw q (
        decode_position-reverse (digits n n) (digits-AllDigits n n) (omega (arith, same))
        ∙ ap ok same)
]
