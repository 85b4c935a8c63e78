-- ===== src/Edit/Cursors.antt =====
-- Where an edit takes the cursors that did not make it.
use garland.Base.{
  ℕ, ◌+◌, ◌-◌, ◌≤◌, ◌<◌, ◌≡◌, ap, ◌∙◌, Bool, true, false, List, ◌++◌, take, drop, length, ltb, leb,
  ◌==◌, if◌then◌else◌, arith, inl, inr, Bool-cases, length-take, length-drop, drop-append_right,
  drop_add, lt→ltb, ltb→lt, ltb→ge, le→leb, gt→leb,
}
use garland.Cursor.{Cursor, adjust_for_mutation}
use garland.History.{State}
use garland.Edit.{after_insert}
use garland.Edit.Holds.{spliced}
use garland.Edit.Delete.{after_delete}

-- A cursor behind an insertion moves by what was put in.
after_insert-behind :
    (actor pos : ℕ) (bytes : List ℕ) (insert_before : Bool) (c : Cursor)
    → (c.id == actor) ≡ false
    → pos < c.byte_pos
    → (after_insert actor pos bytes insert_before c).byte_pos ≡ c.byte_pos + length bytes
unfolding after_insert adjust_for_mutation
after_insert-behind actor pos bytes insert_before c other lt =
    let at_or_behind : leb pos c.byte_pos ≡ true = le→leb _ _ (omega arith) in
    let behind : ltb pos c.byte_pos ≡ true = lt→ltb _ _ lt in
    rw (other, at_or_behind, behind) (omega arith)

drop-spliced :
    (pos at : ℕ) (bytes bs : List ℕ)
    → pos ≤ at
    → at ≤ length bs
    → drop (at + length bytes) (spliced pos bytes bs) ≡ drop at bs
drop-spliced pos at bytes bs le inside =
    let front : length (take pos bs) ≡ pos = omega (arith, length-take pos bs) in
    let first : at + length bytes - length (take pos bs) - length bytes ≡ at - pos = omega arith in
    let back : pos + (at - pos) ≡ at = omega arith in
    drop-append_right (at + length bytes) (take pos bs) (bytes ++ drop pos bs) (omega arith)
    ∙ drop-append_right (at + length bytes - length (take pos bs)) bytes (drop pos bs) (omega arith)
    ∙ ap (λ k. drop k (drop pos bs)) first
    ∙ drop_add pos (at - pos) bs
    ∙ ap (λ k. drop k bs) back

-- A cursor of another than the actor that is behind the place of an insertion, and within the text,
-- stands before the same rest of the text after it as before it.
pub after_insert-drop :
    (actor pos : ℕ) (bytes bs : List ℕ) (insert_before : Bool) (c : Cursor)
    → (c.id == actor) ≡ false
    → pos < c.byte_pos
    → c.byte_pos ≤ length bs
    → drop (after_insert actor pos bytes insert_before c).byte_pos (spliced pos bytes bs)
      ≡ drop c.byte_pos bs
after_insert-drop actor pos bytes bs insert_before c other lt le =
    rw (after_insert-behind actor pos bytes insert_before c other lt)
      (drop-spliced pos c.byte_pos bytes bs (omega arith) le)

-- A cursor of another than the actor that is behind a range that is deleted, and within the text,
-- stands before the same rest of the text after the deletion as before it; one that is within the
-- range stands at its start.
pub after_delete-drop :
    (actor pos len : ℕ) (bs : List ℕ) (s : State) (c : Cursor)
    → (c.id == actor) ≡ false
    → pos + len ≤ length bs
    → pos < c.byte_pos
    → c.byte_pos ≤ length bs
    → drop
        (after_delete actor pos (take len (drop pos bs)) len s c).byte_pos
        (take pos bs ++ drop (pos + len) bs)
      ≡ drop (if leb c.byte_pos (pos + len) then pos + len else c.byte_pos) bs
unfolding after_delete adjust_for_mutation
after_delete-drop actor pos len bs s c other fits lt le =
    let front : length (take pos bs) ≡ pos = omega (arith, length-take pos bs) in
    let size : length (take len (drop pos bs)) ≡ len =
      omega (arith, length-take len (drop pos bs), length-drop pos bs) in
    elim (Bool-cases (ltb (pos + len) c.byte_pos)) [
      | inl q ↦
          let not_in : leb c.byte_pos (pos + len) ≡ false = gt→leb _ _ (ltb→lt _ _ q) in
          let place : c.byte_pos + 0 - len - length (take pos bs) ≡ c.byte_pos - pos - len =
            omega arith in
          let back : pos + len + (c.byte_pos - pos - len) ≡ c.byte_pos =
            omega (arith, ltb→lt _ _ q) in
          rw (other, q, not_in, size)
            (drop-append_right (c.byte_pos + 0 - len) (take pos bs) (drop (pos + len) bs)
                (omega (arith, ltb→lt _ _ q))
              ∙ ap (λ k. drop k (drop (pos + len) bs)) place
              ∙ drop_add (pos + len) (c.byte_pos - pos - len) bs
              ∙ ap (λ k. drop k bs) back)
      | inr q ↦
          let is_in : leb c.byte_pos (pos + len) ≡ true = le→leb _ _ (ltb→ge _ _ q) in
          let behind : ltb pos c.byte_pos ≡ true = lt→ltb _ _ lt in
          let none_left : pos - length (take pos bs) ≡ 0 = omega arith in
          rw (other, q, behind, is_in)
            (drop-append_right pos (take pos bs) (drop (pos + len) bs) (omega arith)
              ∙ ap (λ k. drop k (drop (pos + len) bs)) none_left)
    ]
