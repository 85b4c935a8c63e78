-- ===== src/Edit/Sequence.antt =====
-- Edits of any kind, one behind the other: insertBytesAt, deleteBytesAt, overwriteBytesAtInternal,
-- truncateAt and copyBytesAt (garland.go).
use garland.Base.{
  ℕ, ◌+◌, ◌-◌, ◌≤◌, ◌<◌, ◌≡◌, Bool, List, [], ◌∷◌, ◌++◌, take, drop, length, Option, ap, sym, subst,
}
use garland.Result.{Result, ok, err}
use garland.Address.{RelativeDecoration}
use garland.History.{ChangeResult}
use garland.History.Shows.{Shows}
use garland.Edit.{Document, insert_bytes_at}
use garland.Edit.Shows.{Edits-counted, Edits, insert_bytes_at-Edits}
use garland.Edit.Delete.{delete_bytes_at}
use garland.Edit.Delete.Shows.{delete_bytes_at-Edits}
use garland.Edit.Overwrite.{overwrite_bytes_at_internal}
use garland.Edit.Overwrite.Shows.{overwrite_bytes_at_internal-Edits}
use garland.Edit.Copy.{copy_bytes_at}
use garland.Edit.Copy.Shows.{copy_bytes_at-Edits}
use garland.Edit.Ranges.{truncate_at, truncate_at-Edits}

-- A call of an entry point, with the number of the acting cursor and the time.
pub data EditCall : Type 0 where
  inserting :
      (actor pos : ℕ) (bytes : List ℕ) (decs : List RelativeDecoration) (insert_before : Bool)
      (now : ℕ)
      → EditCall
  deleting : (actor pos len now : ℕ) → EditCall
  overwriting :
      (cache : List ℕ → Option ℕ) (pos len : ℕ) (bytes : List ℕ) (decs : List RelativeDecoration)
      (insert_before : Bool) (now : ℕ)
      → EditCall
  truncating : (actor pos now : ℕ) → EditCall
  copying :
      (cache : List ℕ → Option ℕ) (actor src_start src_end dst_start dst_end : ℕ)
      (decs : List RelativeDecoration) (insert_before : Bool) (now : ℕ)
      → EditCall

-- The change that a deletion or an overwrite reports, without the marks.
abbrev change_only :
    Result (List RelativeDecoration × ChangeResult) × Document → Result ChangeResult × Document
change_only (ok r, d) = (ok r.1, d)
change_only (err e, d) = (err e, d)

-- What a call does to the document.
unfoldable pub call : EditCall → Document → Result ChangeResult × Document
call (inserting actor pos bytes decs insert_before now) d =
    insert_bytes_at actor pos bytes decs insert_before now d
call (deleting actor pos len now) d = change_only (delete_bytes_at actor pos len now d)
call (overwriting cache pos len bytes decs insert_before now) d =
    change_only (overwrite_bytes_at_internal cache pos len bytes decs insert_before now d)
call (truncating actor pos now) d = truncate_at actor pos now d
call (copying cache actor src_start src_end dst_start dst_end decs insert_before now) d =
    change_only
      (copy_bytes_at cache actor src_start src_end dst_start dst_end decs insert_before now d)

-- What a call means for the text.
abbrev pub meaning : EditCall → List ℕ → List ℕ
meaning (inserting actor pos bytes decs insert_before now) bs =
    take pos bs ++ (bytes ++ drop pos bs)
meaning (deleting actor pos len now) bs = take pos bs ++ drop (pos + len) bs
meaning (overwriting cache pos len bytes decs insert_before now) bs =
    take pos bs ++ (bytes ++ drop (pos + len) bs)
meaning (truncating actor pos now) bs = take pos bs
meaning (copying cache actor src_start src_end dst_start dst_end decs insert_before now) bs =
    take dst_start bs ++ (take (src_end - src_start) (drop src_start bs) ++ drop dst_end bs)

-- A call is for positions of the text; an overwrite has new content, a copy some bytes.
abbrev pub Fits : EditCall → List ℕ → Type 0
Fits (inserting actor pos bytes decs insert_before now) bs = pos ≤ length bs
Fits (deleting actor pos len now) bs = pos < length bs
Fits (overwriting cache pos len bytes decs insert_before now) bs =
    (pos ≤ length bs) × (0 < length bytes)
Fits (truncating actor pos now) bs = pos ≤ length bs
Fits (copying cache actor src_start src_end dst_start dst_end decs insert_before now) bs =
    (src_start < src_end) × (src_end ≤ length bs) × (dst_start ≤ dst_end) × (dst_end ≤ length bs)

Edits-change_only :
    (out : Result (List RelativeDecoration × ChangeResult) × Document) (bs : List ℕ) (n : ℕ)
    → Edits out bs n
    → Edits (change_only out) bs n
Edits-change_only out bs n p = record {
  result = p.result.1;
  after = p.after;
  returns = ap change_only p.returns;
  shows = p.shows;
  same_runes = p.same_runes;
}

pub call-Edits :
    (c : EditCall) (d : Document) (bs : List ℕ)
    → Shows d.state bs
    → Fits c bs
    → Edits (call c d) (meaning c bs) (call c d).1.state.total_runes
unfolding call
call-Edits (inserting actor pos bytes decs insert_before now) d bs p fits =
    Edits-counted (insert_bytes_at-Edits actor pos bytes decs insert_before now d bs p fits)
call-Edits (deleting actor pos len now) d bs p fits =
    Edits-counted (Edits-change_only _ _ _ (delete_bytes_at-Edits actor pos len now d bs p fits))
call-Edits (overwriting cache pos len bytes decs insert_before now) d bs p fits = Edits-counted (
    Edits-change_only _ _ _ (
      overwrite_bytes_at_internal-Edits cache pos len bytes decs insert_before now d bs p fits.0
        fits.1))
call-Edits (truncating actor pos now) d bs p fits =
    Edits-counted (truncate_at-Edits actor pos now d bs p fits)
call-Edits (copying cache actor src_start src_end dst_start dst_end decs insert_before now) d bs p
      fits =
    Edits-counted (
      Edits-change_only _ _ _ (
        copy_bytes_at-Edits cache actor src_start src_end dst_start dst_end decs insert_before now d
          bs p fits.0 fits.1 fits.2 fits.3))

-- Calls one behind the other, on what each leaves.
unfoldable pub run : List EditCall → Document → Document
unfolding call
run [] d = d
run (c ∷ cs) d = run cs (call c d).1

abbrev pub meaning_all : List EditCall → List ℕ → List ℕ
meaning_all [] bs = bs
meaning_all (c ∷ cs) bs = meaning_all cs (meaning c bs)

-- Every call is for a position of the text that it meets.
abbrev pub FitAll : List EditCall → List ℕ → Type 0
FitAll [] bs = Unit
FitAll (c ∷ cs) bs = Fits c bs × FitAll cs (meaning c bs)

-- Every call succeeds on the document that it meets.
abbrev pub Succeed : List EditCall → Document → Type 0
Succeed [] d = Unit
Succeed (c ∷ cs) d = ((r : ChangeResult) × ((call c d).0 ≡ ok r)) × Succeed cs (call c d).1

-- In a document that is in order and shows a text, calls of the entry points one behind the other,
-- outside a transaction, each for positions of the text that it meets, overwrites with new content,
-- and copies of some bytes: all succeed, and the document shows what they make of the text.
pub run-Shows :
    (cs : List EditCall) (d : Document) (bs : List ℕ)
    → Shows d.state bs
    → FitAll cs bs
    → Succeed cs d × Shows (run cs d).state (meaning_all cs bs)
unfolding run
run-Shows [] d bs p fits = (tt, p)
run-Shows (c ∷ cs) d bs p fits =
    let done = call-Edits c d bs p fits.0 in
    let shows : Shows (call c d).1.state (meaning c bs) =
      subst (λ out. Shows out.1.state (meaning c bs)) (sym done.returns) done.shows in
    let rest = run-Shows cs (call c d).1 (meaning c bs) shows fits.1 in
    (((done.result, ap (λ out. out.0) done.returns), rest.0), rest.1)
