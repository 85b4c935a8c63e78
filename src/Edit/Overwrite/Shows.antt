-- ===== src/Edit/Overwrite/Shows.antt =====
-- The text that the document shows after an overwrite.
use garland.Base.{
  ℕ, suc, ◌+◌, ◌-◌, ◌≤◌, ◌<◌, ◌≡◌, refl, sym, ap, ◌∙◌, subst, Bool, false, ◌&&◌, ◌||◌, List, [],
  ◌++◌, take, drop, length, ltb, ◌==◌, min, arith, inl, inr, Bool-cases, length-take, length-drop,
  take-append_left, drop-append_right, take-append-drop, take_all, ge→ltb, ne→==, ==→eq, Option,
}
use garland.Result.{ok}
use garland.Address.{Decoration, RelativeDecoration}
use garland.Heap.{Heap}
use garland.Heap.Sound.{Sound}
use garland.Coalesce.{coalesce_overwrite}
use garland.Rope.Delete.{delete_range}
use garland.Rope.Delete.Text.{delete_range-Leaves}
use garland.Rope.Sound.Delete.{delete_range-Sound}
use garland.Rope.Read.Text.{read_bytes_range_internal-text}
use garland.History.{State, record_mutation}
use garland.History.Shows.{Holds, Shows}
use garland.Edit.{tracked_all, Document, decide, insert_tree}
use garland.Edit.Holds.{
  Retreed, Retreed-refl, Retreed-trans, Holds-tall, Holds-view, spliced, length-spliced,
  newlines-spliced, insert_tree-Inserts, Inserts,
}
use garland.Utf8.{rune_count}
use garland.Node.Text.{newlines}
use garland.Edit.Shows.{
  total_runes-record_mutation, total_runes-decide, Edits-same, Edits, Edits-cleared, decide-Shows,
  recorded-edit-Shows,
}
use garland.Edit.Delete.{relative}
use garland.Edit.Delete.Shows.{cut_out, length-cut_out, newlines-cut_out, cut_to, take_to}
use garland.Edit.Overwrite.{
  consolidated, overwrite_insert, overwrite_tree, after_overwrite, overwrite_rest, counted_over,
  overwrite_with, overwrite_read, overwrite_decided, overwrite_bytes_at_internal,
}

-- The text with the bytes in place of `len` of its own.
abbrev pub replaced : ℕ → ℕ → List ℕ → List ℕ → List ℕ
replaced pos len bytes bs = take pos bs ++ (bytes ++ drop (pos + len) bs)

pub spliced-cut_out :
    (pos len : ℕ) (bytes bs : List ℕ)
    → pos ≤ length bs
    → spliced pos bytes (cut_out pos len bs) ≡ replaced pos len bytes bs
spliced-cut_out pos len bytes bs le =
    let front : length (take pos bs) ≡ pos = omega (arith, length-take pos bs) in
    let none_left : pos - length (take pos bs) ≡ 0 = omega (arith, front) in
    let start : take pos (cut_out pos len bs) ≡ take pos bs =
      take-append_left pos (take pos bs) (drop (pos + len) bs) (omega (arith, front))
      ∙ take_all pos (take pos bs) (omega (arith, front)) in
    let rest : drop pos (cut_out pos len bs) ≡ drop (pos + len) bs =
      drop-append_right pos (take pos bs) (drop (pos + len) bs) (omega (arith, front))
      ∙ ap (λ k. drop k (drop (pos + len) bs)) none_left in
    ap (λ x. x ++ (bytes ++ drop pos (cut_out pos len bs))) start
    ∙ ap (λ x. take pos bs ++ (bytes ++ x)) rest

-- A replacement goes into the tree as an insertion does.
pub overwrite_insert-Inserts :
    (pos : ℕ) (bytes : List ℕ) (all : List RelativeDecoration) (before : Bool) (s : State)
    (bs : List ℕ)
    → Holds s.heap s.root bs
    → pos ≤ length bs
    → Inserts s (overwrite_insert pos bytes all before s) (spliced pos bytes bs)
unfolding overwrite_insert insert_tree
overwrite_insert-Inserts pos bytes all before s bs p le =
    let done = insert_tree-Inserts pos bytes all before s bs p le in
    record {
      id = done.id;
      after = done.after;
      returns =
          rw (Holds-view p, overwrite_insert) (rw (Holds-view p, insert_tree) at done.returns);
      edited = done.edited;
    }

overwrite_tree-Inserts :
    (cache : List ℕ → Option ℕ) (pos : ℕ) (bytes : List ℕ) (all : List RelativeDecoration)
    (before : Bool) (s : State) (bs : List ℕ)
    → Holds s.heap s.root bs
    → pos ≤ length bs
    → 0 < length bytes
    → Inserts s (overwrite_tree cache pos bytes all before s) (spliced pos bytes bs)
unfolding overwrite_tree
overwrite_tree-Inserts cache pos bytes all before s bs p le some_bytes =
    let some_content : (length bytes == 0) ≡ false = ne→== _ _ (λ q. omega (arith, q)) in
    rw some_content (overwrite_insert-Inserts pos bytes all before s bs p le)

-- The count of runes with the net change.
abbrev pub runes_over : List ℕ → List ℕ → State → ℕ
runes_over bytes deleted s = s.total_runes + rune_count bytes - rune_count deleted

-- The tree without the range, under the old counts.
abbrev pub without : ℕ → Heap → State → State
without id h s = record s { heap = h; root = id }

module _ (cache : List ℕ → Option ℕ) (pos len : ℕ) (bytes : List ℕ) (decs : List RelativeDecoration)
    (insert_before : Bool) (now : ℕ) (d : Document) (bs : List ℕ) (p : Shows d.state bs)
    (le : pos + len ≤ length bs) (some_bytes : 0 < length bytes) where
  -- From the tree without the range on.
  overwrite_with-Edits :
      (id : ℕ) (h : Heap) (displaced : List Decoration)
      → Retreed d.state (without id h d.state)
      → Holds h id (cut_out pos len bs)
      → Edits
          (overwrite_with cache pos len bytes decs insert_before now
            (take len (drop pos bs))
            (ok (id, displaced), h)
            d)
          (replaced pos len bytes bs)
          (runes_over bytes (take len (drop pos bs)) d.state)
  overwrite_with-Edits id h displaced r holds =
      let deleted : List ℕ = take len (drop pos bs) in
      let all = consolidated decs displaced (length bytes) insert_before in
      let remains = length-cut_out pos len bs le in
      let taken : length deleted ≡ len =
        omega (arith, length-take len (drop pos bs), length-drop pos bs) in
      let inside : pos ≤ length (cut_out pos len bs) = omega (arith, remains, taken, le) in
      let done =
        overwrite_tree-Inserts cache pos bytes all (ltb 0 len || insert_before)
          (without id h d.state) (cut_out pos len bs) holds inside some_bytes in
      let after : State = counted_over bytes deleted done.after in
      let out = record_mutation now after in
      let same = spliced-cut_out pos len bytes bs (omega (arith, le)) in
      let total : after.total_bytes ≡ length (spliced pos bytes (cut_out pos len bs)) = omega (
        arith,
        length-spliced pos bytes (cut_out pos len bs) inside,
        done.edited.same_bytes,
        remains,
        p.counted.0,
      ) in
      let lines : after.total_lines ≡ newlines (spliced pos bytes (cut_out pos len bs)) = omega (
        arith,
        newlines-spliced pos bytes (cut_out pos len bs),
        done.edited.same_lines,
        newlines-cut_out pos len bs,
        p.counted.1,
      ) in
      record {
        result = (relative pos displaced, out.0);
        after = record {
          state = out.1;
          cursors =
              tracked_all after out.1 (after_overwrite pos len bytes deleted insert_before after)
                d.cursors;
        };
        returns =
            ap (λ o. overwrite_rest pos len bytes deleted displaced insert_before now o d)
              done.returns;
        shows = subst (Shows out.1) same (
            recorded-edit-Shows d.state done.after after.total_bytes after.total_runes
              after.total_lines (Retreed-trans r done.edited.retreed) now bs
              (spliced pos bytes (cut_out pos len bs)) p done.edited.holds (total, lines));
        same_runes =
            total_runes-record_mutation now after
              (done.edited.retreed.same_transaction ∙ r.same_transaction ∙ p.outside)
            ∙ ap (λ n. n + rune_count bytes - rune_count deleted) done.edited.same_runes;
      }

  range-Edits :
      Edits
        (overwrite_with cache pos len bytes decs insert_before now
          (take len (drop pos bs))
          (delete_range (suc d.state.root) d.state.root pos len d.state.heap)
          d)
        (replaced pos len bytes bs)
        (runes_over bytes (take len (drop pos bs)) d.state)
  range-Edits =
      let s : State = d.state in
      let done =
        delete_range-Leaves (suc s.root) s.heap s.root p.holds.rope pos len p.holds.valid
          p.holds.here (Holds-tall p.holds) in
      let sound =
        subst (λ o. Sound o.1) done.returns
          (delete_range-Sound (suc s.root) s.heap s.root pos len p.holds.sound) in
      subst
        (λ o.
          Edits
            (overwrite_with cache pos len bytes decs insert_before now (take len (drop pos bs)) o d)
            (replaced pos len bytes bs) (runes_over bytes (take len (drop pos bs)) d.state))
        (sym done.returns)
        (overwrite_with-Edits done.id done.after done.report
          (record {
            grows = done.grows;
            same_fork_id = refl;
            same_infos = refl;
            same_transaction = refl;
            same_pending = refl;
            same_coalesce = refl;
          })
          (record {
            rope = done.rope;
            valid = done.valid;
            sound = sound;
            here = done.here;
            same_text = done.same_text ∙ ap (cut_out pos len) p.holds.same_text;
          }))

  overwrite_decided-Edits :
      Edits
        (overwrite_decided cache pos len bytes decs insert_before now d)
        (replaced pos len bytes bs)
        (runes_over bytes (take len (drop pos bs)) d.state)
  unfolding overwrite_decided
  overwrite_decided-Edits = elim (Bool-cases (len == 0)) [
    | inl q ↦
        let no_range : len ≡ 0 = ==→eq len 0 q in
        let whole : bs ≡ cut_out pos len bs =
          sym (take-append-drop pos bs)
          ∙ ap (λ k. take pos bs ++ drop k bs) (omega (arith, no_range)) in
        rw q (
          subst
            (λ deleted.
              Edits
                (overwrite_with cache pos len bytes decs insert_before now deleted
                  (ok (d.state.root, []), d.state.heap) d)
                (replaced pos len bytes bs) (runes_over bytes (take len (drop pos bs)) d.state))
            (ap (λ k. take k (drop pos bs)) no_range)
            (overwrite_with-Edits d.state.root d.state.heap [] (Retreed-refl d.state)
              (subst (Holds d.state.heap d.state.root) whole p.holds)))
    | inr q ↦
        let read =
          read_bytes_range_internal-text d.state.heap (suc d.state.root) d.state.root p.holds.rope
            p.holds.here (Holds-tall p.holds) pos len in
        rw q (
          subst
            (λ r.
              Edits (overwrite_read cache pos len bytes decs insert_before now r d)
                (replaced pos len bytes bs) (runes_over bytes (take len (drop pos bs)) d.state))
            (sym (read ∙ ap (λ t. ok (take len (drop pos t))) p.holds.same_text)) range-Edits)
  ]

-- A range that goes behind the end is cut there.
replaced_to :
    (pos len : ℕ) (bytes bs : List ℕ) {total : ℕ}
    → total ≡ length bs
    → pos ≤ length bs
    → replaced pos (min len (total - pos)) bytes bs ≡ replaced pos len bytes bs
replaced_to pos len bytes bs {total} e le =
    sym (spliced-cut_out pos (min len (total - pos)) bytes bs le)
    ∙ ap (spliced pos bytes) (cut_to pos len bs e le)
    ∙ spliced-cut_out pos len bytes bs le

nothing_or : (b : Bool) → (b && false) ≡ false
nothing_or b = ground arith

pub overwrite_bytes_at_internal-Edits :
    (cache : List ℕ → Option ℕ) (pos len : ℕ) (bytes : List ℕ) (decs : List RelativeDecoration)
    (insert_before : Bool) (now : ℕ) (d : Document) (bs : List ℕ)
    → Shows d.state bs
    → pos ≤ length bs
    → 0 < length bytes
    → Edits
        (overwrite_bytes_at_internal cache pos len bytes decs insert_before now d)
        (take pos bs ++ (bytes ++ drop (pos + len) bs))
        (d.state.total_runes + rune_count bytes - rune_count (take len (drop pos bs)))
unfolding overwrite_bytes_at_internal
overwrite_bytes_at_internal-Edits cache pos len bytes decs insert_before now d bs p le some_bytes =
    let some_content : (length bytes == 0) ≡ false = ne→== _ _ (λ q. omega (arith, q)) in
    let something : ((len == 0) && (length bytes == 0)) ≡ false =
      ap (λ b. (len == 0) && b) some_content ∙ nothing_or (len == 0) in
    let inside : ltb d.state.total_bytes pos ≡ false = ge→ltb _ _ (omega (arith, p.counted.0)) in
    let n : ℕ = min len (d.state.total_bytes - pos) in
    let fits : pos + n ≤ length bs = omega (arith, p.counted.0) in
    let same_count =
      ap (λ k. k + rune_count bytes - rune_count (take n (drop pos bs)))
        (total_runes-decide coalesce_overwrite pos (length bytes) now d)
      ∙ ap (λ t. runes_over bytes t d.state) (take_to pos len bs p.counted.0) in
    rw (something, inside)
      (Edits-same (replaced_to pos len bytes bs p.counted.0 le) same_count (
        Edits-cleared _ _ _ (
          overwrite_decided-Edits cache pos n bytes decs insert_before now
            (decide coalesce_overwrite pos (length bytes) now d) bs
            (decide-Shows coalesce_overwrite pos (length bytes) now d bs p) fits some_bytes)))
