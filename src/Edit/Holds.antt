-- ===== src/Edit/Holds.antt =====
-- The tree under an edit: the root that an operation returns stands for the text it should.
use garland.Base.{
  take-append-drop, ℕ, suc, ◌+◌, ◌-◌, ◌≤◌, ◌≡◌, refl, sym, ap, ◌∙◌, subst, Bool, List, [], ◌∷◌,
  ◌++◌, take, drop, length, leb, arith, inl, inr, Bool-cases, some, length-append, length-take,
  length-drop, leb→gt, leb→le, ◌<◌,
}
use garland.Result.{Result, ok, err, invalid_position}
use garland.Address.{RelativeDecoration}
use garland.Node.Marks.{Within}
use garland.Heap.{Heap, current}
use garland.Heap.Views.{Grows, Grows-refl, Grows-trans}
use garland.Heap.Sound.{Sound, view-Sits}
use garland.Heap.Sound.Depth.{height-le, Represents-InLeaves}
use garland.Heap.Represents.{Rope, text, height, InLeaves, root_snapshot, Represents-view, Makes}
use garland.Rope.Insert.{absolute, insert_internal}
use garland.Rope.Insert.Tree.{insert_internal-Inserted}
use garland.Rope.Sound.Insert.{insert_internal-Sound}
use garland.Heap.Steps.{bind-err}
use garland.Rope.Search.Bytes.{find_leaf_by_byte-invalid}
use garland.Rope.Mark.{add_decoration_internal, search}
use garland.Rope.Mark.Add.{add_decoration_internal-SameText, add_decoration_internal-Sound}
use garland.Node.Text.{newlines, newlines-append}
use garland.History.{State}
use garland.History.Shows.{Holds}
use garland.Edit.{
  split_end_decorations, with_tree, home_mark, add_end_decorations, insert_marks, insert_tree,
}

-- An operation that returned a root for this text, and kept all that was there.
pub record Turns (h : Heap) (out : Result ℕ × Heap) (bs : List ℕ) : Type 0 where
  pub id : ℕ
  pub after : Heap
  pub returns : out ≡ (ok id, after)
  pub grows : Grows h after
  pub holds : Holds after id bs

-- What is known of a document's rope.
pub Holds-tall :
    {h : Heap} {root : ℕ} {bs : List ℕ} (p : Holds h root bs) → height p.rope ≤ suc root
Holds-tall {h} {root} p = height-le p.sound h.current_fork h.current_revision root p.rope p.here

pub Holds-InLeaves : {h : Heap} {root : ℕ} {bs : List ℕ} (p : Holds h root bs) → InLeaves p.rope
Holds-InLeaves {h} {root} p =
    Represents-InLeaves p.sound h.current_fork h.current_revision root p.rope p.here

pub Holds-size :
    {h : Heap} {root : ℕ} {bs : List ℕ} (p : Holds h root bs) → length (text p.rope) ≡ length bs
Holds-size p = ap length p.same_text

pub Holds-view :
    {h : Heap} {root : ℕ} {bs : List ℕ} (p : Holds h root bs)
    → current h root ≡ some (root_snapshot p.rope)
Holds-view {h} {root} p = Represents-view h h.current_fork h.current_revision root p.rope p.here

-- From what an operation made to what it turns the document into.
pub turns :
    {h : Heap} {out : Result ℕ × Heap} {t : Rope} {bs : List ℕ} (p : Makes h out t)
    → Sound out.1
    → text t ≡ bs
    → Turns h out bs
turns {h} {out} {t} p sound e = record {
  id = p.id;
  after = p.after;
  returns = p.returns;
  grows = p.grows;
  holds = record {
    rope = t;
    valid = p.valid;
    sound = subst (λ o. Sound o.1) p.returns sound;
    here = p.here;
    same_text = e;
  };
}

pub add_decoration-Turns :
    (h : Heap) (root : ℕ) (bs key : List ℕ) (pos : ℕ)
    → Holds h root bs
    → pos ≤ length bs
    → Turns h (add_decoration_internal (suc root) root key pos h) bs
add_decoration-Turns h root bs key pos p le =
    let within : pos ≤ length (text p.rope) = omega (arith, Holds-size p) in
    let done =
      add_decoration_internal-SameText (suc root) h root p.rope key pos p.valid p.here
        (Holds-InLeaves p) (Holds-tall p) within in
    turns done.makes
      (add_decoration_internal-Sound (suc root) h root p.rope key pos p.valid p.here
        (Holds-InLeaves p) (Holds-tall p) within p.sound)
      (done.same_text ∙ p.same_text)

-- The text with `bytes` put in at `pos`.
abbrev pub spliced : ℕ → List ℕ → List ℕ → List ℕ
spliced pos bytes bs = take pos bs ++ (bytes ++ drop pos bs)

pub length-spliced :
    (pos : ℕ) (bytes bs : List ℕ)
    → pos ≤ length bs
    → length (spliced pos bytes bs) ≡ length bs + length bytes
length-spliced pos bytes bs le = omega (
  arith,
  length-append (take pos bs) (bytes ++ drop pos bs),
  length-append bytes (drop pos bs),
  length-take pos bs,
  length-drop pos bs,
)

pub newlines-spliced :
    (pos : ℕ) (bytes bs : List ℕ) → newlines (spliced pos bytes bs) ≡ newlines bs + newlines bytes
newlines-spliced pos bytes bs = omega (
  arith,
  newlines-append (take pos bs) (bytes ++ drop pos bs),
  newlines-append bytes (drop pos bs),
  newlines-append (take pos bs) (drop pos bs),
  ap newlines (take-append-drop pos bs),
)

pub insert-Turns :
    (h : Heap) (root : ℕ) (bs : List ℕ) (pos : ℕ) (bytes : List ℕ) (decs : List RelativeDecoration)
    (insert_before : Bool) (p : Holds h root bs)
    → pos ≤ length bs
    → Within (length bytes) (absolute decs)
    → Turns h
        (insert_internal (suc root) (root_snapshot p.rope) pos 0 bytes decs insert_before h)
        (spliced pos bytes bs)
insert-Turns h root bs pos bytes decs insert_before p le w =
    let within : pos - 0 ≤ length (text p.rope) = omega (arith, Holds-size p) in
    let done =
      insert_internal-Inserted bytes decs insert_before (suc root) h root p.rope pos 0 p.valid
        p.here (Holds-InLeaves p) (Holds-tall p) (omega arith) within in
    let same : pos - 0 ≡ pos = omega arith in
    turns done.makes
      (insert_internal-Sound bytes decs insert_before w (suc root) h root (root_snapshot p.rope) pos
        0 p.sound (view-Sits p.sound h.current_fork h.current_revision root _ (Holds-view p)).0)
      (done.same_text
        ∙ ap (λ k. take k (text p.rope) ++ (bytes ++ drop k (text p.rope))) same
        ∙ ap (spliced pos bytes) p.same_text)

-- The marks that go in with the content lie within it.
pub Within-split_end :
    (decs : List RelativeDecoration) (n : ℕ) → Within n (absolute (split_end_decorations decs n).0)
unfolding split_end_decorations
Within-split_end [] n = tt
Within-split_end (d ∷ ds) n = elim (Bool-cases (leb n d.position)) [
  | inl q ↦ rw q (Within-split_end ds n)
  | inr q ↦ rw q (omega (arith, leb→gt _ _ q), Within-split_end ds n)
]

-- A state with another tree, and the same history.
pub record Retreed (s s' : State) : Type 0 where
  pub grows : Grows s.heap s'.heap
  pub same_fork_id : s'.next_fork_id ≡ s.next_fork_id
  pub same_infos : s'.revision_info ≡ s.revision_info
  pub same_transaction : s'.transaction ≡ s.transaction
  pub same_pending : s'.coalesce_pending ≡ s.coalesce_pending
  pub same_coalesce : s'.coalesce ≡ s.coalesce

pub Retreed-refl : (s : State) → Retreed s s
Retreed-refl s = record {
  grows = Grows-refl s.heap;
  same_fork_id = refl;
  same_infos = refl;
  same_transaction = refl;
  same_pending = refl;
  same_coalesce = refl;
}

pub Retreed-trans : {a b c : State} → Retreed a b → Retreed b c → Retreed a c
Retreed-trans p q = record {
  grows = Grows-trans p.grows q.grows;
  same_fork_id = q.same_fork_id ∙ p.same_fork_id;
  same_infos = q.same_infos ∙ p.same_infos;
  same_transaction = q.same_transaction ∙ p.same_transaction;
  same_pending = q.same_pending ∙ p.same_pending;
  same_coalesce = q.same_coalesce ∙ p.same_coalesce;
}

-- An edit of the tree alone.
pub record Edited (s s' : State) (bs : List ℕ) : Type 0 where
  pub retreed : Retreed s s'
  pub same_bytes : s'.total_bytes ≡ s.total_bytes
  pub same_runes : s'.total_runes ≡ s.total_runes
  pub same_lines : s'.total_lines ≡ s.total_lines
  pub holds : Holds s'.heap s'.root bs

pub with_tree-Edited :
    (s : State) (out : Result ℕ × Heap) (bs : List ℕ)
    → Turns s.heap out bs
    → Edited s (with_tree out s) bs
with_tree-Edited s out bs p =
    subst (λ o. Edited s (with_tree o s) bs) (sym p.returns)
      (record {
        retreed = record {
          grows = p.grows;
          same_fork_id = refl;
          same_infos = refl;
          same_transaction = refl;
          same_pending = refl;
          same_coalesce = refl;
        };
        same_bytes = refl;
        same_runes = refl;
        same_lines = refl;
        holds = p.holds;
      })

-- Behind the end of the text there is no leaf for a mark.
add_decoration-behind :
    (h : Heap) (root : ℕ) (bs key : List ℕ) (pos : ℕ)
    → Holds h root bs
    → length bs < pos
    → add_decoration_internal (suc root) root key pos h ≡ (err invalid_position, h)
unfolding add_decoration_internal
add_decoration-behind h root bs key pos p lt = bind-err (search (suc root) root pos) _ h (
    ap (λ r. (r, h))
      (find_leaf_by_byte-invalid (suc root) h root p.rope pos p.here (omega (arith, Holds-size p))))

-- A mark that is put in, or that has no place, changes no text.
pub home_mark-Edited :
    (s : State) (bs key : List ℕ) (pos : ℕ)
    → Holds s.heap s.root bs
    → Edited s (home_mark key pos s) bs
unfolding home_mark
home_mark-Edited s bs key pos p = elim (Bool-cases (leb pos (length bs))) [
  | inl q ↦ with_tree-Edited s _ bs (add_decoration-Turns s.heap s.root bs key pos p (leb→le _ _ q))
  | inr q ↦
      subst (λ out. Edited s (with_tree out s) bs)
        (sym (add_decoration-behind s.heap s.root bs key pos p (leb→gt _ _ q)))
        (record {
          retreed = Retreed-refl s;
          same_bytes = refl;
          same_runes = refl;
          same_lines = refl;
          holds = p;
        })
]

pub Edited-trans : {a b c : State} {xs bs : List ℕ} → Edited a b xs → Edited b c bs → Edited a c bs
Edited-trans p q = record {
  retreed = Retreed-trans p.retreed q.retreed;
  same_bytes = q.same_bytes ∙ p.same_bytes;
  same_runes = q.same_runes ∙ p.same_runes;
  same_lines = q.same_lines ∙ p.same_lines;
  holds = q.holds;
}

pub add_end_decorations-Edited :
    (decs : List RelativeDecoration) (landing : ℕ) (s : State) (bs : List ℕ)
    → Holds s.heap s.root bs
    → Edited s (add_end_decorations decs landing s) bs
unfolding add_end_decorations
add_end_decorations-Edited [] landing s bs p = record {
  retreed = Retreed-refl s;
  same_bytes = refl;
  same_runes = refl;
  same_lines = refl;
  holds = p;
}
add_end_decorations-Edited (d ∷ ds) landing s bs p =
    let first = home_mark-Edited s bs d.key (landing + d.position) p in
    Edited-trans first (
      add_end_decorations-Edited ds landing (home_mark d.key (landing + d.position) s) bs
        first.holds)

-- The tree part of an insertion that succeeds.
pub record Inserts (s : State) (out : Result ℕ × State) (bs : List ℕ) : Type 0 where
  pub id : ℕ
  pub after : State
  pub returns : out ≡ (ok id, after)
  pub edited : Edited s after bs

pub insert_tree-Inserts :
    (pos : ℕ) (bytes : List ℕ) (decs : List RelativeDecoration) (insert_before : Bool) (s : State)
    (bs : List ℕ) (p : Holds s.heap s.root bs)
    → pos ≤ length bs
    → Inserts s (insert_tree pos bytes decs insert_before s) (spliced pos bytes bs)
unfolding insert_tree
insert_tree-Inserts pos bytes decs insert_before s bs p le =
    let parts = split_end_decorations decs (length bytes) in
    let done =
      insert-Turns s.heap s.root bs pos bytes parts.0 insert_before p le
        (Within-split_end decs (length bytes)) in
    let between : State = record s { heap = done.after; root = done.id } in
    let first : Edited s between (spliced pos bytes bs) = record {
      retreed = record {
        grows = done.grows;
        same_fork_id = refl;
        same_infos = refl;
        same_transaction = refl;
        same_pending = refl;
        same_coalesce = refl;
      };
      same_bytes = refl;
      same_runes = refl;
      same_lines = refl;
      holds = done.holds;
    } in
    let rest = add_end_decorations-Edited parts.1 pos between (spliced pos bytes bs) done.holds in
    record {
      id = done.id;
      after = add_end_decorations parts.1 pos between;
      returns =
          rw (Holds-view p, insert_tree) (ap (λ out. insert_marks parts.1 pos out s) done.returns);
      edited = Edited-trans first rest;
    }
