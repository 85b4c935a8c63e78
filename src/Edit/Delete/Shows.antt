-- ===== src/Edit/Delete/Shows.antt =====
-- The text that the document shows after a deletion.
use garland.Base.{
  take_all, drop_add, ℕ, suc, ◌+◌, ◌-◌, ◌≤◌, ◌<◌, ◌≡◌, refl, sym, ap, ◌∙◌, subst, false, List, [],
  ◌∷◌, ◌++◌, take, drop, length, leb, ◌==◌, min, arith, inl, inr, Bool-cases, take-append-drop,
  length-take, length-drop, length-append, drop_all, ==→eq, leb→gt, leb→le, gt→leb,
}
use garland.Result.{ok}
use garland.Address.{Decoration}
use garland.Heap.Views.{Grows-trans}
use garland.Heap.Sound.{Sound}
use garland.Coalesce.{coalesce_delete}
use garland.Rope.Delete.{delete_range}
use garland.Rope.Delete.Text.{delete_range-Leaves}
use garland.Rope.Sound.Delete.{delete_range-Sound}
use garland.Rope.Read.Text.{read_bytes_range_internal-text}
use garland.History.{State, record_mutation}
use garland.History.Shows.{Holds, Shows}
use garland.Utf8.{rune_count}
use garland.Node.Text.{newlines, newlines-append}
use garland.Node.Lines.{rune_count-nil}
use garland.Edit.{tracked_all, Document, home_mark, decide, counted_out}
use garland.Edit.Holds.{Retreed-refl, Edited, Edited-trans, home_mark-Edited, Holds-tall}
use garland.Edit.Shows.{
  Edits-same, total_runes-record_mutation, total_runes-decide, Edits, Edits-cleared, decide-Shows,
  recorded-edit-Shows,
}
use garland.Edit.Delete.{
  untouched, home_marks, after_delete, relative, delete_rest, delete_read, delete_decided,
  delete_bytes_at,
}

home_marks-Edited :
    (ds : List Decoration) (pos : ℕ) (s : State) (bs : List ℕ)
    → Holds s.heap s.root bs
    → Edited s (home_marks ds pos s) bs
unfolding home_marks
home_marks-Edited [] pos s bs p = record {
  retreed = Retreed-refl s;
  same_bytes = refl;
  same_runes = refl;
  same_lines = refl;
  holds = p;
}
home_marks-Edited (d ∷ ds) pos s bs p =
    let first = home_mark-Edited s bs d.key pos p in
    Edited-trans first (home_marks-Edited ds pos (home_mark d.key pos s) bs first.holds)

-- The text without the `len` bytes from `pos` on.
abbrev pub cut_out : ℕ → ℕ → List ℕ → List ℕ
cut_out pos len bs = take pos bs ++ drop (pos + len) bs

pub length-cut_out :
    (pos len : ℕ) (bs : List ℕ)
    → pos + len ≤ length bs
    → length (cut_out pos len bs) + length (take len (drop pos bs)) ≡ length bs
length-cut_out pos len bs le = omega (
  arith,
  length-append (take pos bs) (drop (pos + len) bs),
  length-take pos bs,
  length-drop (pos + len) bs,
  length-take len (drop pos bs),
  length-drop pos bs,
)

pub newlines-cut_out :
    (pos len : ℕ) (bs : List ℕ)
    → newlines (cut_out pos len bs) + newlines (take len (drop pos bs)) ≡ newlines bs
newlines-cut_out pos len bs = omega (
  arith,
  newlines-append (take pos bs) (drop (pos + len) bs),
  newlines-append (take pos bs) (drop pos bs),
  ap newlines (take-append-drop pos bs),
  newlines-append (take len (drop pos bs)) (drop len (drop pos bs)),
  ap newlines (take-append-drop len (drop pos bs)),
  ap newlines (drop_add pos len bs),
)

-- The range that is read is cut at the end.
pub take_to :
    (pos len : ℕ) (bs : List ℕ) {total : ℕ}
    → total ≡ length bs
    → take (min len (total - pos)) (drop pos bs) ≡ take len (drop pos bs)
take_to pos len bs {total} e = elim (Bool-cases (leb len (total - pos))) [
  | inl q ↦ ap (λ k. take k (drop pos bs)) (omega (arith, leb→le _ _ q))
  | inr q ↦
      let size = length-drop pos bs in
      take_all (min len (total - pos)) (drop pos bs) (omega (arith, e, size, leb→gt _ _ q))
      ∙ sym (take_all len (drop pos bs) (omega (arith, e, size, leb→gt _ _ q)))
]

-- A range that goes behind the end is cut there.
pub cut_to :
    (pos len : ℕ) (bs : List ℕ) {total : ℕ}
    → total ≡ length bs
    → pos ≤ length bs
    → cut_out pos (min len (total - pos)) bs ≡ cut_out pos len bs
cut_to pos len bs {total} e le = elim (Bool-cases (leb len (total - pos))) [
  | inl q ↦ ap (λ k. cut_out pos k bs) (omega (arith, leb→le _ _ q))
  | inr q ↦ ap (take pos bs ++◌) (
      drop_all (pos + min len (total - pos)) bs (omega (arith, e, leb→gt _ _ q))
      ∙ sym (drop_all (pos + len) bs (omega (arith, e, leb→gt _ _ q))))
]

module _ (actor pos len now : ℕ) (d : Document) (bs : List ℕ) (p : Shows d.state bs)
    (le : pos + len ≤ length bs) where
  bytes : List ℕ
  bytes = take len (drop pos bs)

  delete_rest-Edits :
      Edits
        (delete_rest actor pos len bytes now
          (delete_range (suc d.state.root) d.state.root pos len d.state.heap)
          d)
        (cut_out pos len bs)
        (d.state.total_runes - rune_count (take len (drop pos bs)))
  unfolding bytes
  delete_rest-Edits =
      let s : State = d.state in
      let t = p.holds.rope in
      let done =
        delete_range-Leaves (suc s.root) s.heap s.root t pos len p.holds.valid p.holds.here
          (Holds-tall p.holds) in
      let sound =
        subst (λ o. Sound o.1) done.returns
          (delete_range-Sound (suc s.root) s.heap s.root pos len p.holds.sound) in
      let between : State =
        counted_out (take len (drop pos bs)) (record s { heap = done.after; root = done.id }) in
      let holds : Holds between.heap between.root (cut_out pos len bs) = record {
        rope = done.rope;
        valid = done.valid;
        sound = sound;
        here = done.here;
        same_text = done.same_text ∙ ap (cut_out pos len) p.holds.same_text;
      } in
      let marks = home_marks-Edited done.report pos between (cut_out pos len bs) holds in
      let after : State = home_marks done.report pos between in
      let out = record_mutation now after in
      let total : after.total_bytes ≡ length (cut_out pos len bs) =
        omega (arith, length-cut_out pos len bs le, marks.same_bytes, p.counted.0) in
      let lines : after.total_lines ≡ newlines (cut_out pos len bs) =
        omega (arith, newlines-cut_out pos len bs, marks.same_lines, p.counted.1) in
      record {
        result = (relative pos done.report, out.0);
        after = record {
          state = out.1;
          cursors =
              tracked_all after out.1 (after_delete actor pos (take len (drop pos bs)) len after)
                d.cursors;
        };
        returns = ap (λ o. delete_rest actor pos len (take len (drop pos bs)) now o d) done.returns;
        shows =
            recorded-edit-Shows s after after.total_bytes after.total_runes after.total_lines
              (record {
                grows = Grows-trans done.grows marks.retreed.grows;
                same_fork_id = marks.retreed.same_fork_id;
                same_infos = marks.retreed.same_infos;
                same_transaction = marks.retreed.same_transaction;
                same_pending = marks.retreed.same_pending;
                same_coalesce = marks.retreed.same_coalesce;
              })
              now bs (cut_out pos len bs) p marks.holds (total, lines);
        same_runes =
            total_runes-record_mutation now after (marks.retreed.same_transaction ∙ p.outside)
            ∙ marks.same_runes;
      }

  delete_decided-Edits :
      Edits
        (delete_decided actor pos len now d)
        (cut_out pos len bs)
        (d.state.total_runes - rune_count (take len (drop pos bs)))
  unfolding delete_decided bytes
  delete_decided-Edits =
      let read =
        read_bytes_range_internal-text d.state.heap (suc d.state.root) d.state.root p.holds.rope
          p.holds.here (Holds-tall p.holds) pos len in
      subst
        (λ r.
          Edits (delete_read actor pos len now r d) (cut_out pos len bs)
            (d.state.total_runes - rune_count (take len (drop pos bs))))
        (sym (read ∙ ap (λ t. ok (take len (drop pos t))) p.holds.same_text)) delete_rest-Edits

pub delete_bytes_at-Edits :
    (actor pos len now : ℕ) (d : Document) (bs : List ℕ)
    → Shows d.state bs
    → pos < length bs
    → Edits
        (delete_bytes_at actor pos len now d)
        (take pos bs ++ drop (pos + len) bs)
        (d.state.total_runes - rune_count (take len (drop pos bs)))
unfolding delete_bytes_at
delete_bytes_at-Edits actor pos len now d bs p lt = elim (Bool-cases (len == 0)) [
  | inl q ↦
      let none_cut : pos + len ≡ pos = omega (arith, ==→eq len 0 q) in
      let nothing : rune_count (take len (drop pos bs)) ≡ 0 =
        ap (λ k. rune_count (take k (drop pos bs))) (==→eq len 0 q) ∙ rune_count-nil in
      rw q (
        subst
          (λ t. Edits (untouched d) t (d.state.total_runes - rune_count (take len (drop pos bs))))
          (sym (take-append-drop pos bs) ∙ ap (λ k. take pos bs ++ drop k bs) (sym none_cut))
          (record {
            result = _;
            after = d;
            returns = refl;
            shows = p;
            same_runes = omega (arith, nothing);
          }))
  | inr q ↦
      let inside : leb d.state.total_bytes pos ≡ false = gt→leb _ _ (omega (arith, p.counted.0)) in
      let n : ℕ = min len (d.state.total_bytes - pos) in
      let fits : pos + n ≤ length bs = omega (arith, p.counted.0) in
      let same_count =
        ap (λ k. k - rune_count (take n (drop pos bs)))
          (total_runes-decide coalesce_delete pos n now d)
        ∙ ap (λ t. d.state.total_runes - rune_count t) (take_to pos len bs p.counted.0) in
      rw (q, inside)
        (Edits-same (cut_to pos len bs p.counted.0 (omega arith)) same_count (
          Edits-cleared _ _ _ (
            delete_decided-Edits actor pos n now (decide coalesce_delete pos n now d) bs
              (decide-Shows coalesce_delete pos n now d bs p) fits)))
]
