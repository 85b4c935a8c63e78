-- ===== src/Node/Marks.antt =====
-- Splitting the marks of a leaf: partitionDecorations, and marks counted in any order.
use garland.Base.{
  ℕ, ◌+◌, ◌-◌, ◌≤◌, ◌≡◌, refl, ap, Bool, true, false, List, [], ◌∷◌, ◌++◌, map, ◌==◌, if◌then◌else◌,
  arith, ltb, inl, inr, Bool-cases, ltb→ge,
}
use garland.Address.{Decoration}
use garland.Node.{partition_decorations}

abbrev pub moved : ℕ → Decoration → Decoration
moved n d = record d { position = d.position + n }

-- Where an insertion of `n` bytes at `pos` takes a mark.
abbrev pub slide : ℕ → ℕ → Bool → Decoration → Decoration
slide pos n insert_before d =
    if ltb d.position pos
    then d
    else if d.position == pos
    then (if insert_before then moved n d else d)
    else moved n d

-- The weight of a list of marks. Two lists that weigh the same for every weighing of marks hold
-- the same marks, as often.
abbrev pub total : (Decoration → ℕ) → List Decoration → ℕ
total w [] = 0
total w (d ∷ ds) = w d + total w ds

abbrev pub SameMarks : List Decoration → List Decoration → Type 0
SameMarks xs ys = (w : Decoration → ℕ) → total w xs ≡ total w ys

pub total-append :
    (w : Decoration → ℕ) (xs ys : List Decoration) → total w (xs ++ ys) ≡ total w xs + total w ys
total-append w [] ys = omega arith
total-append w (d ∷ xs) ys = omega (arith, total-append w xs ys)

pub total-map :
    (w : Decoration → ℕ) (f : Decoration → Decoration) (xs : List Decoration)
    → total w (map f xs) ≡ total (λ d. w (f d)) xs
total-map w f [] = refl
total-map w f (d ∷ xs) = ap (w (f d) +◌) (total-map w f xs)

pub total-ext :
    (w u : Decoration → ℕ) (xs : List Decoration)
    → ((d : Decoration) → w d ≡ u d)
    → total w xs ≡ total u xs
total-ext w u [] e = refl
total-ext w u (d ∷ xs) e = omega (arith, e d, total-ext w u xs e)

-- All marks lie at or below an offset.
abbrev pub Within : ℕ → List Decoration → Type 0
Within n [] = Unit
Within n (d ∷ ds) = (d.position ≤ n) × Within n ds

pub total-ext_Within :
    (w u : Decoration → ℕ) (n : ℕ) (xs : List Decoration)
    → Within n xs
    → ((d : Decoration) → d.position ≤ n → w d ≡ u d)
    → total w xs ≡ total u xs
total-ext_Within w u n [] h e = refl
total-ext_Within w u n (d ∷ xs) h e = omega (arith, e d h.0, total-ext_Within w u n xs h.1 e)

pub Within-mono : {n m : ℕ} (xs : List Decoration) → n ≤ m → Within n xs → Within m xs
Within-mono [] le h = tt
Within-mono (d ∷ xs) le h = (omega arith, Within-mono xs le h.1)

pub Within-append :
    (n : ℕ) (xs ys : List Decoration) → Within n xs → Within n ys → Within n (xs ++ ys)
Within-append n [] ys h k = k
Within-append n (d ∷ xs) ys h k = (h.0, Within-append n xs ys h.1 k)

pub Within-moved :
    (n k : ℕ) (xs : List Decoration) → Within n xs → Within (k + n) (map (moved k) xs)
Within-moved n k [] h = tt
Within-moved n k (d ∷ xs) h = (omega (arith, h.0), Within-moved n k xs h.1)

-- The parts, put at their new places, are the marks slid past the insertion.
pub partition_decorations-slide :
    (w : Decoration → ℕ) (n : ℕ) (ds : List Decoration) (pos : ℕ) (insert_before : Bool)
    → total w (partition_decorations ds pos insert_before).left
        + total (λ d. w (moved pos d)) (partition_decorations ds pos insert_before).boundary
        + total (λ d. w (moved (pos + n) d)) (partition_decorations ds pos insert_before).right
      ≡ total (λ d. w (slide pos n insert_before d)) ds
unfolding partition_decorations
partition_decorations-slide w n [] pos true = refl
partition_decorations-slide w n [] pos false = refl
partition_decorations-slide w n (d ∷ ds) pos true =
    let put = λ (k : ℕ). w (record d { position = k }) in
    let ih = partition_decorations-slide w n ds pos true in
    elim (Bool-cases (ltb d.position pos)) [
      | inl below ↦ rw below (omega (arith, ih))
      | inr above ↦
          let back : put (d.position - pos + (pos + n)) ≡ put (d.position + n) =
            ap put (omega (arith, ltb→ge d.position pos above)) in
          elim (Bool-cases (d.position == pos)) [
            | inl at ↦ rw (above, at) (omega (arith, ih, back))
            | inr behind ↦ rw (above, behind) (omega (arith, ih, back))
          ]
    ]
partition_decorations-slide w n (d ∷ ds) pos false =
    let put = λ (k : ℕ). w (record d { position = k }) in
    let ih = partition_decorations-slide w n ds pos false in
    elim (Bool-cases (ltb d.position pos)) [
      | inl below ↦ rw below (omega (arith, ih))
      | inr above ↦
          let back : put (d.position - pos + (pos + n)) ≡ put (d.position + n) =
            ap put (omega (arith, ltb→ge d.position pos above)) in
          elim (Bool-cases (d.position == pos)) [
            | inl at ↦
                let start : put (0 + pos) ≡ put d.position = ap put (ground arith) in
                rw (above, at) (omega (arith, ih, start))
            | inr behind ↦ rw (above, behind) (omega (arith, ih, back))
          ]
    ]
