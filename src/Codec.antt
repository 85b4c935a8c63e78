-- ===== src/Codec.antt =====
-- The cold storage format of decorations (garland.go): numbers in decimal, and key, zero byte,
-- position and newline for each decoration.
pub mod Numbers
pub mod Decorations
use garland.Base.{
  ℕ, zero, suc, ◌+◌, ◌-◌, ◌*◌, ◌/◌, ◌%◌, ◌^◌, Bool, true, false, ◌&&◌, ◌||◌, List, [], ◌∷◌, ◌++◌,
  length, ltb, leb, ◌==◌, if◌then◌else◌, Option, none, some,
}
use mathlib.Core.List.{reverse}
use garland.Result.{Result, ok, err, cold_storage_failure, ◌>>=◌}
use garland.Address.{Decoration, valid_decoration_key}

-- The loop of formatUint64, with the lowest digit first. A round divides by ten, so the number is
-- fuel enough.
unfoldable pub digits : ℕ → ℕ → List ℕ
digits zero n = []
digits (suc fuel) n =
    let rest : List ℕ = digits fuel (n / 10) in if n == 0 then [] else (48 + n % 10) ∷ rest

-- formatUint64
unfoldable pub format_uint64 : ℕ → List ℕ
unfolding digits
format_uint64 n = if n == 0 then 48 ∷ [] else reverse (digits n n)

abbrev pub is_digit : ℕ → Bool
is_digit c = leb 48 c && leb c 57

-- One round of the loops that read a number: a uint64 wraps around.
abbrev pub add_digit : ℕ → ℕ → ℕ
add_digit result c = (result * 10 + (c - 48)) % 2 ^ 64

unfoldable pub parse_from : ℕ → List ℕ → ℕ
parse_from result [] = result
parse_from result (c ∷ cs) = parse_from (if is_digit c then add_digit result c else result) cs

-- parseUint64
unfoldable pub parse_uint64 : List ℕ → ℕ
unfolding parse_from
parse_uint64 s = parse_from 0 s

-- encodeDecorations
unfoldable pub encode_decorations : List Decoration → List ℕ
unfolding format_uint64
encode_decorations [] = []
encode_decorations (d ∷ ds) =
    d.key ++ (0 ∷ (format_uint64 d.position ++ (10 ∷ encode_decorations ds)))

-- The bytes before the first one that is `c`, and those behind it; `none` if there is none.
unfoldable pub cut_at : ℕ → List ℕ → Option (List ℕ × List ℕ)
cut_at c [] = none
cut_at c (b ∷ bs) =
    if b == c
    then some ([], bs)
    else elim (cut_at c bs) [ none ↦ none | some (xs, ys) ↦ some (b ∷ xs, ys) ]

-- The position, which must be digits only.
unfoldable pub decode_position : ℕ → List ℕ → Result ℕ
decode_position pos [] = ok pos
decode_position pos (c ∷ cs) =
    if is_digit c then decode_position (add_digit pos c) cs else err cold_storage_failure

abbrev pub or_failure : {A : Type 0} → Option A → Result A
or_failure none = err cold_storage_failure
or_failure (some a) = ok a

-- An empty position is refused.
abbrev pub decode_digits : List ℕ → Result ℕ
decode_digits [] = err cold_storage_failure
decode_digits (c ∷ cs) = decode_position 0 (c ∷ cs)

-- The loop of decodeDecorations; each round takes at least one byte, so the length is fuel enough.
-- The conversion to int64 is the identity below 2 ^ 63, as all positions are.
unfoldable pub decode_from : ℕ → List ℕ → Result (List Decoration)
unfolding cut_at decode_position
decode_from fuel [] = ok []
decode_from zero (b ∷ bs) = err cold_storage_failure
decode_from (suc fuel) (b ∷ bs) = or_failure (cut_at 0 (b ∷ bs)) >>= λ key.
    elim (valid_decoration_key key.0) [
      | false ↦ err cold_storage_failure
      | true ↦ or_failure (cut_at 10 key.1) >>= λ pos. decode_digits pos.0 >>= λ n.
          decode_from fuel pos.1 >>= λ rest. ok (record { key = key.0; position = n } ∷ rest)
    ]

-- decodeDecorations
unfoldable pub decode_decorations : List ℕ → Result (List Decoration)
unfolding decode_from
decode_decorations bs = decode_from (length bs) bs
