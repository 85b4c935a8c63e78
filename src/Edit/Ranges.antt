-- ===== src/Edit/Ranges.antt =====
-- truncateAt and deleteRunesAt (garland.go): deletions of the rest of the text, and of a range that
-- is given in runes.
use garland.Base.{
  length-drop, ℕ, ◌+◌, ◌-◌, ◌≤◌, ◌≡◌, refl, sym, ap, ◌∙◌, List, [], ◌++◌, take, drop, length, ltb,
  ◌==◌, if◌then◌else◌, arith, inl, inr, Bool-cases, false, ge→ltb, ==→eq, ==→ne, drop_all, take_all,
  append-nil,
}
use garland.Result.{Result, ok, err, invalid_position}
use garland.Address.{RelativeDecoration}
use garland.History.{ChangeResult}
use garland.History.Shows.{Shows}
use garland.Cursor.{rune_to_byte}
use garland.Edit.{Document, unedited}
use garland.Utf8.{rune_count}
use garland.Node.Lines.{rune_count-nil}
use garland.Edit.Shows.{Edits, Edits-same}
use garland.Edit.Delete.{delete_bytes_at}
use garland.Edit.Delete.Shows.{delete_bytes_at-Edits}

-- The result of a deletion without the marks.
abbrev change_of : Result (List RelativeDecoration × ChangeResult) → Result ChangeResult
change_of (ok r) = ok r.1
change_of (err e) = err e

-- truncateAt
unfoldable pub truncate_at : ℕ → ℕ → ℕ → Document → Result ChangeResult × Document
truncate_at actor pos now d =
    if ltb d.state.total_bytes pos
    then (err invalid_position, d)
    else if pos == d.state.total_bytes
    then unedited d
    else (let out = delete_bytes_at actor pos (d.state.total_bytes - pos) now d in
        (change_of out.0, out.1))

-- The byte where a range of runes ends; behind the end of the text it is the end.
abbrev end_of : ℕ → Result ℕ → ℕ
end_of total (ok n) = n
end_of total (err e) = total

-- deleteRunesAt from the byte where the range starts.
abbrev delete_runes_from :
    ℕ
    → Result ℕ
    → Result ℕ
    → ℕ
    → Document
    → Result (List RelativeDecoration × ChangeResult) × Document
delete_runes_from actor (err e) finish now d = (err e, d)
delete_runes_from actor (ok start) finish now d =
    delete_bytes_at actor start (end_of d.state.total_bytes finish - start) now d

-- deleteRunesAt
unfoldable pub delete_runes_at :
    ℕ → ℕ → ℕ → ℕ → Document → Result (List RelativeDecoration × ChangeResult) × Document
delete_runes_at actor rune_pos len now d =
    if len == 0
    then (
      ok (
        [],
        record { fork = d.state.heap.current_fork; revision = d.state.heap.current_revision },
      ),
      d,
    )
    else delete_runes_from actor (rune_to_byte d.state.heap d.state.root rune_pos)
        (rune_to_byte d.state.heap d.state.root (rune_pos + len)) now d

Edits-change_of :
    (out : Result (List RelativeDecoration × ChangeResult) × Document) (bs : List ℕ) (n : ℕ)
    → Edits out bs n
    → Edits (change_of out.0, out.1) bs n
Edits-change_of out bs n p = record {
  result = p.result.1;
  after = p.after;
  returns = ap (λ o. (change_of o.0, o.1)) p.returns;
  shows = p.shows;
  same_runes = p.same_runes;
}

-- truncateAt, outside a transaction and at a position up to the end of the text, succeeds, and the
-- document shows the text up to there; the runes counted are fewer by those behind it.
pub truncate_at-Edits :
    (actor pos now : ℕ) (d : Document) (bs : List ℕ)
    → Shows d.state bs
    → pos ≤ length bs
    → Edits
        (truncate_at actor pos now d)
        (take pos bs)
        (d.state.total_runes - rune_count (drop pos bs))
unfolding truncate_at
truncate_at-Edits actor pos now d bs p le =
    let inside : ltb d.state.total_bytes pos ≡ false = ge→ltb _ _ (omega (arith, p.counted.0)) in
    elim (Bool-cases (pos == d.state.total_bytes)) [
      | inl q ↦
          rw (inside, q)
            (Edits-same
              (sym (take_all pos bs (omega (arith, p.counted.0, ==→eq pos d.state.total_bytes q))))
              (omega (
                arith,
                ap rune_count
                    (drop_all pos bs (omega (arith, p.counted.0, ==→eq pos d.state.total_bytes q))),
                rune_count-nil,
              ))
              (record { result = _; after = d; returns = refl; shows = p; same_runes = refl }))
      | inr q ↦
          let rest : ℕ = d.state.total_bytes - pos in
          let nothing_left : take pos bs ++ drop (pos + rest) bs ≡ take pos bs =
            ap (take pos bs ++◌) (drop_all (pos + rest) bs (omega (arith, p.counted.0)))
            ∙ append-nil (take pos bs) in
          let same_count =
            ap (λ t. d.state.total_runes - rune_count t)
              (take_all rest (drop pos bs) (omega (arith, length-drop pos bs, p.counted.0))) in
          rw (inside, q)
            (Edits-change_of _ _ _ (
              Edits-same nothing_left same_count (
                delete_bytes_at-Edits actor pos rest now d bs p
                  (omega (arith, p.counted.0, ==→ne pos d.state.total_bytes q)))))
    ]
