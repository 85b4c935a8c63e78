-- ===== src/Node/Lines.antt =====
-- The loop of createLeafSnapshot meets the meaning of the line index.
use garland.Base.{
  ℕ, zero, suc, ◌+◌, ◌-◌, ◌≤◌, ◌≡◌, refl, ap, sym, subst, List, [], ◌∷◌, ◌++◌, length, map, Option,
  none, some, arith, inl, inr, Option-cases, append_assoc, length-append, get_elem?,
}
use garland.Address.{LineStart}
use garland.Node.{index_newline, add_line, scan_lines}
use garland.Node.Text.{
  newlines, last_line, starts_from, line_at, index_newline-some, index_newline-none, Line-take,
  Line-drop, Line-newlines, Line-length, starts_from-line, starts_from-last, starts_from-plain,
  last_line-line, last_line-plain, take_prefix,
}
use garland.Utf8.{rune_count}
use garland.Utf8.Newline.{IsCut, nil-IsCut, line-IsCut}

-- The loop counts the newlines.
pub scan_lines-newlines :
    (fuel : ℕ) (rest : List ℕ) (prev runes : ℕ)
    → length rest ≤ fuel
    → (scan_lines fuel rest prev runes).1 ≡ newlines rest
unfolding scan_lines
scan_lines-newlines zero [] prev runes h = refl
scan_lines-newlines zero (b ∷ rest) prev runes h = absurd (omega arith)
scan_lines-newlines (suc fuel) rest prev runes h = elim (Option-cases (index_newline rest)) [
  | inl e ↦ rw (e, scan_lines) (sym (index_newline-none rest e))
  | inr (i, e) ↦
      let l = index_newline-some rest i e in
      rw (e, scan_lines, Line-drop l, Line-newlines l)
        (ap suc (scan_lines-newlines fuel l.back _ _ (omega (arith, Line-length l))))
]

-- One round, on a text that is cut open.
module _ (done us : List ℕ) (cut : IsCut done) where
  next_done : List ℕ
  next_done = done ++ (us ++ 10 ∷ [])

  length-next_done : length next_done ≡ length done + suc (length us)
  unfolding next_done
  length-next_done = omega (arith, length-append done (us ++ 10 ∷ []), length-append us (10 ∷ []))

  rune_count-next_done : rune_count next_done ≡ rune_count done + rune_count (us ++ 10 ∷ [])
  unfolding next_done
  rune_count-next_done = cut (us ++ 10 ∷ [])

  next_done-append : (bs : List ℕ) → next_done ++ bs ≡ done ++ (us ++ 10 ∷ bs)
  unfolding next_done
  next_done-append bs = simp append_assoc

  next_done-IsCut : IsCut next_done
  unfolding next_done
  next_done-IsCut = line-IsCut done us cut

  line_at-next_done :
      (bs : List ℕ)
      → line_at (done ++ (us ++ 10 ∷ bs)) (length next_done)
        ≡ record { byte_offset = length next_done; rune_offset = rune_count next_done }
  line_at-next_done bs = rw (← next_done-append bs, take_prefix next_done bs)

  -- What a round adds, given what the later rounds find.
  round-starts :
      (fuel : ℕ) (back : List ℕ)
      → newlines us ≡ 0
      → (scan_lines fuel back (length next_done) (rune_count next_done)).0
        ≡ map (line_at (next_done ++ back)) (starts_from (length next_done) back)
      → add_line back
          (record { byte_offset = length next_done; rune_offset = rune_count next_done })
          (scan_lines fuel back (length next_done) (rune_count next_done)).0
        ≡ map (line_at (done ++ (us ++ 10 ∷ back))) (starts_from (length done) (us ++ 10 ∷ back))
  unfolding add_line
  round-starts fuel [] plain ih = rw (starts_from-last (length done) us plain) ih
  round-starts fuel (c ∷ back) plain ih =
      rw (starts_from-line (length done) us c back plain, ← length-next_done)
        (rw (ih, next_done-append (c ∷ back), ← line_at-next_done (c ∷ back)))

-- The loop finds the starts of lines.
pub scan_lines-starts :
    (fuel : ℕ) (done rest : List ℕ)
    → IsCut done
    → length rest ≤ fuel
    → (scan_lines fuel rest (length done) (rune_count done)).0
      ≡ map (line_at (done ++ rest)) (starts_from (length done) rest)
unfolding scan_lines
scan_lines-starts zero done [] cut h = refl
scan_lines-starts zero done (b ∷ rest) cut h = absurd (omega arith)
scan_lines-starts (suc fuel) done rest cut h = elim (Option-cases (index_newline rest)) [
  | inl e ↦ rw (e, scan_lines, starts_from-plain (length done) rest (index_newline-none rest e))
  | inr (i, e) ↦
      let l = index_newline-some rest i e in
      let ih =
        scan_lines-starts fuel (next_done done l.front cut) l.back
          (next_done-IsCut done l.front cut) (omega (arith, Line-length l)) in
      rw (e, scan_lines, Line-drop l, Line-take l)
        (subst
          (λ r.
            add_line l.back
              (record {
                byte_offset = length done + suc i;
                rune_offset = rune_count done + rune_count (l.front ++ 10 ∷ []);
              })
              (scan_lines fuel l.back (length done + suc i)
                (rune_count done + rune_count (l.front ++ 10 ∷ []))).0
            ≡ map (line_at (done ++ r)) (starts_from (length done) r))
          (sym l.parts)
          (rw
            (← l.size, ← length-next_done done l.front cut, ← rune_count-next_done done l.front cut)
            (round-starts done l.front cut fuel l.back l.plain ih)))
]

-- The entry of the last line, where the text does not end in a newline, gives the runes behind it.
abbrev pub runes_left : ℕ → Option LineStart → ℕ
runes_left runes none = 0
runes_left runes (some l) = runes - l.rune_offset

scan_lines-nil : (fuel prev runes : ℕ) → scan_lines fuel [] prev runes ≡ ([], 0)
unfolding scan_lines
scan_lines-nil zero prev runes = refl
scan_lines-nil (suc fuel) prev runes = refl

pub rune_count-nil : rune_count [] ≡ 0
rune_count-nil = omega (arith, nil-IsCut [])

round-rest :
    (done us : List ℕ) (cut : IsCut done) (fuel : ℕ) (start : LineStart) (back : List ℕ)
    → ((next : LineStart)
        → next.rune_offset ≡ rune_count (next_done done us cut)
        → runes_left (rune_count (next_done done us cut ++ back)) (
            get_elem?
              (next
                ∷ (scan_lines fuel back
                    (length (next_done done us cut))
                    (rune_count (next_done done us cut))).0)
              (scan_lines fuel back
                (length (next_done done us cut))
                (rune_count (next_done done us cut))).1)
          ≡ rune_count (last_line back))
    → runes_left (rune_count (done ++ (us ++ 10 ∷ back))) (
        get_elem?
          (start
            ∷ add_line back
                (record {
                  byte_offset = length (next_done done us cut);
                  rune_offset = rune_count (next_done done us cut);
                })
                (scan_lines fuel back
                  (length (next_done done us cut))
                  (rune_count (next_done done us cut))).0)
          (suc
            (scan_lines fuel back
              (length (next_done done us cut))
              (rune_count (next_done done us cut))).1))
      ≡ rune_count (last_line (us ++ 10 ∷ back))
unfolding add_line
round-rest done us cut fuel start [] ih =
    rw
      (
        scan_lines-nil fuel (length (next_done done us cut)) (rune_count (next_done done us cut)),
        last_line-line us [],
      )
      (sym rune_count-nil)
round-rest done us cut fuel start (c ∷ back) ih =
    rw (← next_done-append done us cut (c ∷ back), last_line-line us (c ∷ back)) (ih _ refl)

pub scan_lines-rest :
    (fuel : ℕ) (done rest : List ℕ) (start : LineStart)
    → IsCut done
    → length rest ≤ fuel
    → start.rune_offset ≡ rune_count done
    → runes_left (rune_count (done ++ rest)) (
        get_elem?
          (start ∷ (scan_lines fuel rest (length done) (rune_count done)).0)
          (scan_lines fuel rest (length done) (rune_count done)).1)
      ≡ rune_count (last_line rest)
unfolding scan_lines
scan_lines-rest zero done [] start cut h e = omega (arith, cut [], rune_count-nil)
scan_lines-rest zero done (b ∷ rest) start cut h e = absurd (omega arith)
scan_lines-rest (suc fuel) done rest start cut h e = elim (Option-cases (index_newline rest)) [
  | inl n ↦
      rw (n, scan_lines, last_line-plain rest (index_newline-none rest n)) (omega (arith, cut rest))
  | inr (i, n) ↦
      let l = index_newline-some rest i n in
      let ih : (next : LineStart)
          → next.rune_offset ≡ rune_count (next_done done l.front cut)
          → runes_left (rune_count (next_done done l.front cut ++ l.back)) (
              get_elem?
                (next
                  ∷ (scan_lines fuel l.back (length (next_done done l.front cut))
                      (rune_count (next_done done l.front cut))).0)
                (scan_lines fuel l.back (length (next_done done l.front cut))
                  (rune_count (next_done done l.front cut))).1)
            ≡ rune_count (last_line l.back) =
        λ next same.
          scan_lines-rest fuel (next_done done l.front cut) l.back next
            (next_done-IsCut done l.front cut) (omega (arith, Line-length l)) same in
      rw (n, scan_lines, Line-drop l, Line-take l)
        (subst
          (λ r.
            runes_left (rune_count (done ++ r)) (
              get_elem?
                (start
                  ∷ add_line l.back
                      (record {
                        byte_offset = length done + suc i;
                        rune_offset = rune_count done + rune_count (l.front ++ 10 ∷ []);
                      })
                      (scan_lines fuel l.back (length done + suc i)
                        (rune_count done + rune_count (l.front ++ 10 ∷ []))).0)
                (suc
                  (scan_lines fuel l.back (length done + suc i)
                    (rune_count done + rune_count (l.front ++ 10 ∷ []))).1))
            ≡ rune_count (last_line r))
          (sym l.parts)
          (rw
            (← l.size, ← length-next_done done l.front cut, ← rune_count-next_done done l.front cut)
            (round-rest done l.front cut fuel start l.back ih)))
]
