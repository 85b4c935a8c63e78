-- ===== src/Edit/Copy/Shows.antt =====
-- The text that the document shows after a copy.
use garland.Base.{
  ℕ, suc, ◌+◌, ◌-◌, ◌≤◌, ◌<◌, ◌≡◌, refl, sym, ap, ◌∙◌, subst, Bool, false, ◌||◌, List, [], ◌++◌,
  take, drop, length, ltb, ◌==◌, arith, inl, inr, Bool-cases, length-take, length-drop,
  take-append-drop, ge→ltb, ne→==, ==→eq, Option,
}
use garland.Result.{Result, ok}
use garland.Address.{Decoration, RelativeDecoration}
use garland.Heap.{Heap}
use garland.Node.{create_internal_snapshot}
use garland.Node.Text.{newlines, newlines-append}
use garland.Node.Leaf.{line_count-create_leaf_snapshot}
use garland.Heap.Represents.{Rope, leaf, node, text, root_snapshot, byte_count-root_snapshot}
use garland.Heap.Sound.{Sound}
use garland.Rope.Delete.Text.{delete_range-Leaves}
use garland.Rope.Sound.Delete.{delete_range-Sound}
use garland.Rope.Read.{read_bytes_range_internal}
use garland.Rope.Read.Text.{read_bytes_range_internal-text}
use garland.History.{State, in_transaction, record_mutation, update_counts_from_root}
use garland.History.Shows.{Holds, Shows}
use garland.Edit.{tracked_all, Document, record_cursor_positions}
use garland.Edit.Holds.{Retreed, Retreed-refl, Retreed-trans, Holds-tall, Holds-view, spliced}
use garland.Edit.Shows.{Edits, Edits-counted, recounted, recorded-edit-Shows}
use garland.Edit.Delete.{relative}
use garland.Edit.Delete.Shows.{cut_out, length-cut_out}
use garland.Edit.Overwrite.Shows.{replaced, spliced-cut_out, overwrite_insert-Inserts}
use garland.Edit.Overwrite.{consolidated}
use garland.Edit.Copy.{
  copy_tree, after_copy, copy_rest, copy_with, copy_read, taken_out, positions_kept, copy_bytes_at,
}

-- A range that was taken out of the tree, and the tree that is left.
record TakesOut (s : State) (out : Result (ℕ × List Decoration) × Heap) (bs : List ℕ) : Type 0 where
  pub id : ℕ
  pub displaced : List Decoration
  pub after : Heap
  pub returns : out ≡ (ok (id, displaced), after)
  pub retreed : Retreed s (record s { heap = after; root = id })
  pub holds : Holds after id bs

taken_out-TakesOut :
    (pos len : ℕ) (s : State) (bs : List ℕ)
    → Holds s.heap s.root bs
    → TakesOut s (taken_out pos len s) (cut_out pos len bs)
taken_out-TakesOut pos len s bs p = elim (Bool-cases (len == 0)) [
  | inl q ↦
      let whole : bs ≡ cut_out pos len bs =
        sym (take-append-drop pos bs)
        ∙ ap (λ k. take pos bs ++ drop k bs) (omega (arith, ==→eq len 0 q)) in
      record {
        id = s.root;
        displaced = [];
        after = s.heap;
        returns = rw q;
        retreed = Retreed-refl s;
        holds = subst (Holds s.heap s.root) whole p;
      }
  | inr q ↦
      let done =
        delete_range-Leaves (suc s.root) s.heap s.root p.rope pos len p.valid p.here
          (Holds-tall p) in
      record {
        id = done.id;
        displaced = done.report;
        after = done.after;
        returns = rw q done.returns;
        retreed = record {
          grows = done.grows;
          same_fork_id = refl;
          same_infos = refl;
          same_transaction = refl;
          same_pending = refl;
          same_coalesce = refl;
        };
        holds = record {
          rope = done.rope;
          valid = done.valid;
          sound =
              subst (λ o. Sound o.1) done.returns
                (delete_range-Sound (suc s.root) s.heap s.root pos len p.sound);
          here = done.here;
          same_text = done.same_text ∙ ap (cut_out pos len) p.same_text;
        };
      }
]

read-text :
    (start len : ℕ) (s : State) (bs : List ℕ)
    → Holds s.heap s.root bs
    → read_bytes_range_internal s.heap (suc s.root) s.root start len ≡ ok (take len (drop start bs))
read-text start len s bs p =
    read_bytes_range_internal-text s.heap (suc s.root) s.root p.rope p.here (Holds-tall p) start len
    ∙ ap (λ t. ok (take len (drop start t))) p.same_text

positions_kept-state : (d : Document) → (positions_kept d).state ≡ d.state
unfolding record_cursor_positions
positions_kept-state d = elim (Bool-cases (in_transaction d.state)) [ inl q ↦ rw q | inr q ↦ rw q ]

line_count-root_snapshot : (t : Rope) → (root_snapshot t).line_count ≡ newlines (text t)
unfolding root_snapshot create_internal_snapshot
line_count-root_snapshot (leaf bs decs offset) = line_count-create_leaf_snapshot bs decs offset
line_count-root_snapshot (node i j l r) = omega (
  arith,
  line_count-root_snapshot l,
  line_count-root_snapshot r,
  newlines-append (text l) (text r),
)

-- The count of runes behind a copy is that of the root, whatever it was before.
abbrev pub Copies : {A : Type 0} → Result A × Document → List ℕ → Type 0
Copies out bs = Edits out bs out.1.state.total_runes

-- The counts that the root of a tree gives.
record RootCounts (s : State) (bs : List ℕ) : Type 0 where
  pub bytes_in : ℕ
  pub runes_in : ℕ
  pub lines_in : ℕ
  pub gives : update_counts_from_root s ≡ recounted bytes_in runes_in lines_in s
  pub right : (bytes_in ≡ length bs) × (lines_in ≡ newlines bs)

root-RootCounts : (s : State) (bs : List ℕ) → Holds s.heap s.root bs → RootCounts s bs
unfolding update_counts_from_root
root-RootCounts s bs p = record {
  bytes_in = (root_snapshot p.rope).byte_count;
  runes_in = (root_snapshot p.rope).rune_count;
  lines_in = (root_snapshot p.rope).line_count;
  gives = rw (Holds-view p);
  right = (
    byte_count-root_snapshot p.rope ∙ ap length p.same_text,
    line_count-root_snapshot p.rope ∙ ap newlines p.same_text,
  );
}

module _ (cache : List ℕ → Option ℕ) (actor pos len : ℕ) (bytes : List ℕ)
    (decs : List RelativeDecoration) (insert_before : Bool) (now : ℕ) (d : Document) (bs : List ℕ)
    (p : Shows d.state bs) (le : pos + len ≤ length bs) (some_bytes : 0 < length bytes) where
  -- The copy of bytes that were read.
  copy_with-Edits :
      Copies
        (copy_with cache actor pos len decs insert_before now bytes (taken_out pos len d.state) d)
        (replaced pos len bytes bs)
  unfolding copy_tree
  copy_with-Edits =
      let out = taken_out-TakesOut pos len d.state bs p.holds in
      let all = consolidated decs out.displaced (length bytes) insert_before in
      let some_content : (length bytes == 0) ≡ false = ne→== _ _ (λ q. omega (arith, q)) in
      let inside : pos ≤ length (cut_out pos len bs) =
        omega (
          arith,
          length-cut_out pos len bs le,
          length-take len (drop pos bs),
          length-drop pos bs,
        ) in
      let done =
        overwrite_insert-Inserts pos bytes all (ltb 0 len || insert_before)
          (record d.state { heap = out.after; root = out.id }) (cut_out pos len bs) out.holds
          inside in
      let counts =
        root-RootCounts done.after (spliced pos bytes (cut_out pos len bs)) done.edited.holds in
      let after : State = update_counts_from_root done.after in
      let recorded = record_mutation now after in
      let shows =
        recorded-edit-Shows d.state done.after counts.bytes_in counts.runes_in counts.lines_in
          (Retreed-trans out.retreed done.edited.retreed) now bs
          (spliced pos bytes (cut_out pos len bs)) p done.edited.holds counts.right in
      Edits-counted {n = (record_mutation now (update_counts_from_root done.after)).1.total_runes}
        (record {
          result = (relative pos out.displaced, recorded.0);
          after = record {
            state = recorded.1;
            cursors =
                tracked_all after recorded.1
                  (after_copy actor pos len (length bytes) insert_before after) d.cursors;
          };
          returns =
              ap (λ o. copy_with cache actor pos len decs insert_before now bytes o d) out.returns
              ∙ rw some_content (
                  ap (λ o. copy_rest actor pos len bytes out.displaced insert_before now o d)
                    done.returns);
          shows = subst (Shows recorded.1) (spliced-cut_out pos len bytes bs (omega (arith, le))) (
              subst (λ s. Shows (record_mutation now s).1 (spliced pos bytes (cut_out pos len bs)))
                (sym counts.gives) shows);
          same_runes = refl;
        })

-- The size of what is read.
read-size :
    (start len : ℕ) (bs : List ℕ)
    → start + len ≤ length bs
    → length (take len (drop start bs)) ≡ len
read-size start len bs le = omega (arith, length-take len (drop start bs), length-drop start bs)

-- copyBytesAt of some bytes, outside a transaction and for ranges of the text, succeeds, and the
-- document shows the text with the bytes of the source, as they were before, in place of the
-- destination, whether the two overlap or not; the bytes and lines counted are those of the new
-- text, and the history is in order again.
pub copy_bytes_at-Edits :
    (cache : List ℕ → Option ℕ) (actor src_start src_end dst_start dst_end : ℕ)
    (decs : List RelativeDecoration) (insert_before : Bool) (now : ℕ) (d : Document) (bs : List ℕ)
    → Shows d.state bs
    → src_start < src_end
    → src_end ≤ length bs
    → dst_start ≤ dst_end
    → dst_end ≤ length bs
    → Copies
        (copy_bytes_at cache actor src_start src_end dst_start dst_end decs insert_before now d)
        (take dst_start bs ++ (take (src_end - src_start) (drop src_start bs) ++ drop dst_end bs))
unfolding copy_bytes_at
copy_bytes_at-Edits cache actor src_start src_end dst_start dst_end decs insert_before now d bs p lt
      src_in le dst_in =
    let size : ℕ = src_end - src_start in
    let gap : ℕ = dst_end - dst_start in
    let bytes : List ℕ = take size (drop src_start bs) in
    let kept = positions_kept d in
    let p' : Shows kept.state bs = subst (λ s. Shows s bs) (sym (positions_kept-state d)) p in
    let some_bytes : 0 < length bytes = omega (arith, read-size src_start size bs (omega arith)) in
    let src_order : ltb src_end src_start ≡ false = ge→ltb _ _ (omega arith) in
    let src_inside : ltb d.state.total_bytes src_end ≡ false =
      ge→ltb _ _ (omega (arith, p.counted.0)) in
    let dst_order : ltb dst_end dst_start ≡ false = ge→ltb _ _ (omega arith) in
    let dst_inside : ltb d.state.total_bytes dst_end ≡ false =
      ge→ltb _ _ (omega (arith, p.counted.0)) in
    let something : (src_end - src_start == 0) ≡ false = ne→== _ _ (λ q. omega (arith, q)) in
    let back : dst_start + gap ≡ dst_end = omega arith in
    let done =
      subst
        (λ r.
          Copies (copy_read cache actor dst_start gap decs insert_before now r kept)
            (replaced dst_start gap bytes bs))
        (sym (read-text src_start size kept.state bs p'.holds))
        (copy_with-Edits cache actor dst_start gap bytes decs insert_before now kept bs p'
          (omega arith) some_bytes) in
    rw (src_order, src_inside, dst_order, dst_inside, something)
      (subst (Copies _) (ap (λ k. take dst_start bs ++ (bytes ++ drop k bs)) back) done)
