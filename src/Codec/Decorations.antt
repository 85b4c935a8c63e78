-- ===== src/Codec/Decorations.antt =====
-- Reading back the decorations that were written.
use garland.Base.{
  ℕ, zero, suc, ◌^◌, ◌≤◌, ◌<◌, ◌≡◌, ◌≢◌, refl, sym, ap, true, List, [], ◌∷◌, ◌++◌, length,
  length-append, ◌==◌, arith, Bool-cases, inl, inr, ==→eq, ==→ne, ne→==, ==_refl, some,
}
use mathlib.Core.List.{reverse, reverse-cons}
use garland.Result.{ok, ok_inj, ◌>>=◌}
use garland.Address.{Decoration, key_byte, all_key_bytes, valid_decoration_key}
use garland.Codec.{
  digits, format_uint64, encode_decorations, cut_at, decode_position, decode_digits, decode_from,
  decode_decorations, or_failure,
}
use garland.Codec.Numbers.{AllDigits, digits-AllDigits, decode_position-format_uint64}

-- The byte does not occur.
abbrev pub Without : ℕ → List ℕ → Type 0
Without c [] = 0 ≤ 0
Without c (b ∷ bs) = (b ≢ c) × Without c bs

cut_at-append : (c : ℕ) (xs ys : List ℕ) → Without c xs → cut_at c (xs ++ (c ∷ ys)) ≡ some (xs, ys)
unfolding cut_at
cut_at-append c [] ys h = rw (==_refl c)
cut_at-append c (x ∷ xs) ys h = rw (ne→== x c h.0, cut_at-append c xs ys h.1)

key_byte-nonzero : (c : ℕ) → key_byte c ≡ true → c ≢ 0
unfolding key_byte
key_byte-nonzero c q e = absurd (cc (rw e at q))

all_key_bytes-Without : (key : List ℕ) → all_key_bytes key ≡ true → Without 0 key
unfolding all_key_bytes
all_key_bytes-Without [] q = omega arith
all_key_bytes-Without (c ∷ cs) q = elim (Bool-cases (key_byte c)) [
  | inl k ↦ (key_byte-nonzero c k, all_key_bytes-Without cs (rw (all_key_bytes, k) at q))
  | inr k ↦ absurd (cc (rw (all_key_bytes, k) at q))
]

AllDigits-append : (xs ys : List ℕ) → AllDigits xs → AllDigits ys → AllDigits (xs ++ ys)
AllDigits-append [] ys h k = k
AllDigits-append (x ∷ xs) ys h k = (h.0, h.1, AllDigits-append xs ys h.2 k)

AllDigits-reverse : (xs : List ℕ) → AllDigits xs → AllDigits (reverse xs)
AllDigits-reverse [] h = omega arith
AllDigits-reverse (x ∷ xs) h =
    rw (reverse-cons x xs)
      (AllDigits-append (reverse xs) (x ∷ []) (AllDigits-reverse xs h.2) (h.0, h.1, omega arith))

format_uint64-AllDigits : (n : ℕ) → AllDigits (format_uint64 n)
unfolding format_uint64
format_uint64-AllDigits n = elim (Bool-cases (n == 0)) [
  | inl q ↦ rw q (omega arith, omega arith, omega arith)
  | inr q ↦ rw q (AllDigits-reverse (digits n n) (digits-AllDigits n n))
]

AllDigits-Without : (xs : List ℕ) → AllDigits xs → Without 10 xs
AllDigits-Without [] h = omega arith
AllDigits-Without (x ∷ xs) h = (λ e. absurd (omega (arith, e, h.0)), AllDigits-Without xs h.2)

decode_digits-is :
    (xs : List ℕ) (n : ℕ) → n ≢ 0 → decode_position 0 xs ≡ ok n → decode_digits xs ≡ ok n
unfolding decode_position
decode_digits-is [] n ne e = absurd (ne (sym (ok_inj e)))
decode_digits-is (x ∷ xs) n ne e = e

decode_digits-format_uint64 : (n : ℕ) → n < 2 ^ 64 → decode_digits (format_uint64 n) ≡ ok n
unfolding format_uint64 decode_position
decode_digits-format_uint64 n fits = elim (Bool-cases (n == 0)) [
  | inl q ↦ rw q (ap ok (sym (==→eq n 0 q)))
  | inr q ↦
      decode_digits-is (format_uint64 n) n (==→ne n 0 q) (decode_position-format_uint64 n fits)
]

-- Keys are valid, and positions are those of an int64.
abbrev pub AllValid : List Decoration → Type 0
AllValid [] = 0 ≤ 0
AllValid (d ∷ ds) = (valid_decoration_key d.key ≡ true) × (d.position < 2 ^ 63) × AllValid ds

-- One record is read, and the reading goes on behind it.
decode_from-record :
    (fuel : ℕ) (key : List ℕ) (pos : ℕ) (rest : List ℕ) (ds : List Decoration)
    → valid_decoration_key key ≡ true
    → pos < 2 ^ 63
    → decode_from fuel rest ≡ ok ds
    → decode_from (suc fuel) (key ++ (0 ∷ (format_uint64 pos ++ (10 ∷ rest))))
      ≡ ok (record { key = key; position = pos } ∷ ds)
unfolding decode_from valid_decoration_key
decode_from-record fuel [] pos rest ds v fits e = absurd cc
decode_from-record fuel (c ∷ cs) pos rest ds v fits e =
    let first =
      cut_at-append 0 (c ∷ cs) (format_uint64 pos ++ (10 ∷ rest))
        (all_key_bytes-Without (c ∷ cs) v) in
    let second =
      cut_at-append 10 (format_uint64 pos) rest
        (AllDigits-Without (format_uint64 pos) (format_uint64-AllDigits pos)) in
    rw (
      decode_from,
      first,
      or_failure,
      ◌>>=◌,
      v,
      second,
      decode_digits-format_uint64 pos (omega arith),
      e,
    )

length-record :
    (key middle rest : List ℕ) → length rest < length (key ++ (0 ∷ (middle ++ (10 ∷ rest))))
length-record key middle rest =
    omega (arith, length-append key (0 ∷ (middle ++ (10 ∷ rest))), length-append middle (10 ∷ rest))

decode_from-encode_decorations :
    (ds : List Decoration) (fuel : ℕ)
    → AllValid ds
    → length (encode_decorations ds) ≤ fuel
    → decode_from fuel (encode_decorations ds) ≡ ok ds
unfolding encode_decorations decode_from
decode_from-encode_decorations [] fuel v le = refl
decode_from-encode_decorations (d ∷ ds) zero v le =
    absurd (omega (arith, length-record d.key (format_uint64 d.position) (encode_decorations ds)))
decode_from-encode_decorations (d ∷ ds) (suc fuel) v le =
    decode_from-record fuel d.key d.position (encode_decorations ds) ds v.0 v.1 (
      decode_from-encode_decorations ds fuel v.2
        (omega (arith, length-record d.key (format_uint64 d.position) (encode_decorations ds))))

-- Decorations with valid keys and positions below 2 ^ 63 are read back as they were written.
pub decode_decorations-encode_decorations :
    (ds : List Decoration) → AllValid ds → decode_decorations (encode_decorations ds) ≡ ok ds
unfolding decode_decorations
decode_decorations-encode_decorations ds v =
    decode_from-encode_decorations ds (length (encode_decorations ds)) v (omega arith)
