-- ===== src/Rope/Mark/Keys.antt =====
-- The keys of the marks of a leaf, and of the leaf of a position.
use garland.Base.{
  ℕ, ◌-◌, ◌≤◌, ◌≡◌, refl, sym, ap, ◌∙◌, Bool, true, false, List, [], ◌∷◌, ◌++◌, length, map,
  length-append, ltb, arith, Bool-cases, inl, inr, ltb→lt, ltb→ge, ◌||◌,
}
use garland.Address.{Decoration}
use garland.Node.Marks.{moved, Within, Within-append}
use garland.Heap.Represents.{Rope, leaf, node, text, marks, InLeaves}
use garland.Rope.Mark.{same_key, has_key, replace_mark, put_mark}
use garland.Rope.Mark.Found.{found_at}

-- No mark has this key.
abbrev pub IsAbsent : List ℕ → List Decoration → Type 0
IsAbsent key ds = has_key key ds ≡ false

pub replace_mark-IsAbsent :
    (new : Decoration) (ds : List Decoration) → IsAbsent new.key ds → replace_mark new ds ≡ ds
unfolding replace_mark has_key
replace_mark-IsAbsent new [] a = refl
replace_mark-IsAbsent new (d ∷ ds) a = elim (Bool-cases (same_key d.key new.key)) [
  | inl q ↦ cc (rw q at a)
  | inr q ↦ rw q (ap (d ∷◌) (replace_mark-IsAbsent new ds (rw q at a)))
]

Within-replace_mark :
    (n : ℕ) (new : Decoration) (ds : List Decoration)
    → new.position ≤ n
    → Within n ds
    → Within n (replace_mark new ds)
unfolding replace_mark
Within-replace_mark n new [] le w = tt
Within-replace_mark n new (d ∷ ds) le w = elim (Bool-cases (same_key d.key new.key)) [
  | inl q ↦ rw q (le, Within-replace_mark n new ds le w.1)
  | inr q ↦ rw q (w.0, Within-replace_mark n new ds le w.1)
]

pub Within-put_mark :
    (n : ℕ) (new : Decoration) (ds : List Decoration)
    → new.position ≤ n
    → Within n ds
    → Within n (put_mark new ds)
unfolding put_mark
Within-put_mark n new ds le w = elim (Bool-cases (has_key new.key ds)) [
  | inl q ↦ rw q (Within-replace_mark n new ds le w)
  | inr q ↦ rw q (
      Within-append n (replace_mark new ds) (new ∷ []) (Within-replace_mark n new ds le w) (le, tt))
]

pub has_key-append :
    (key : List ℕ) (xs ys : List Decoration)
    → has_key key (xs ++ ys) ≡ (has_key key xs || has_key key ys)
unfolding has_key
has_key-append key [] ys = refl
has_key-append key (d ∷ xs) ys = elim (Bool-cases (same_key d.key key)) [
  | inl q ↦ rw q
  | inr q ↦ rw q (has_key-append key xs ys)
]

pub has_key-moved :
    (key : List ℕ) (n : ℕ) (ds : List Decoration) → has_key key (map (moved n) ds) ≡ has_key key ds
unfolding has_key
has_key-moved key n [] = refl
has_key-moved key n (d ∷ ds) = ap (same_key d.key key ||◌) (has_key-moved key n ds)

neither : (a b : Bool) → (a || b) ≡ false → (a ≡ false) × (b ≡ false)
neither true b e = absurd cc
neither false b e = (refl, e)

pub IsAbsent-found_at :
    (key : List ℕ) (t : Rope) (pos : ℕ)
    → IsAbsent key (marks t)
    → IsAbsent key (found_at t pos).decs
IsAbsent-found_at key (leaf bs ds o) pos a = a
IsAbsent-found_at key (node i j l r) pos a =
    let both =
      neither _ _
        (sym (has_key-append key (marks l) (map (moved (length (text l))) (marks r))) ∙ a) in
    elim (Bool-cases (ltb pos (length (text l)))) [
      | inl q ↦ rw q (IsAbsent-found_at key l pos both.0)
      | inr q ↦ rw q (
          IsAbsent-found_at key r (pos - length (text l))
            (sym (has_key-moved key (length (text l)) (marks r)) ∙ both.1))
    ]

pub Within-found_at :
    (t : Rope) (pos : ℕ) → InLeaves t → Within (length (found_at t pos).bytes) (found_at t pos).decs
Within-found_at (leaf bs ds o) pos inside = inside
Within-found_at (node i j l r) pos inside = elim (Bool-cases (ltb pos (length (text l)))) [
  | inl q ↦ rw q (Within-found_at l pos inside.0)
  | inr q ↦ rw q (Within-found_at r (pos - length (text l)) inside.1)
]

pub found_at-le :
    (t : Rope) (pos : ℕ)
    → pos ≤ length (text t)
    → (found_at t pos).offset ≤ length (found_at t pos).bytes
found_at-le (leaf bs ds o) pos le = le
found_at-le (node i j l r) pos le = elim (Bool-cases (ltb pos (length (text l)))) [
  | inl q ↦ rw q (found_at-le l pos (omega (arith, ltb→lt _ _ q)))
  | inr q ↦ rw q (
      found_at-le r (pos - length (text l))
        (omega (arith, ltb→ge _ _ q, length-append (text l) (text r))))
]
