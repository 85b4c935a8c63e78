-- ===== src/Rope/Delete/Steps.antt =====
-- What is left of a leaf, and of an inner node, when a range is deleted.
use garland.Base.{
  ℕ, ◌-◌, ◌≤◌, min, ◌≡◌, refl, ap, sym, subst, ◌∙◌, true, List, [], ◌∷◌, ◌++◌, take, drop, length,
  leb, if◌then◌else◌, arith, inl, inr, Bool-cases, Option, none, some, append_assoc, append-nil,
  take_all, drop_all, take-append, drop-append, leb→le, leb→gt, ==→eq, and-left,
}
use garland.Result.{Result, ok}
use garland.Address.{Decoration}
use garland.Node.{create_leaf_snapshot}
use garland.Heap.{Heap, M, ◌>>=◌, continue, return, current, concatenate, add_leaf}
use garland.Heap.Steps.{bind-ok}
use garland.Heap.Views.{Valid, Grows, Grows-refl, Grows-trans}
use garland.Heap.Represents.{
  Rope, text, root_snapshot, byte_count-root_snapshot, Here, Represents-view, Makes, add_leaf-Makes,
  concatenate-Makes,
}
use garland.Rope.Delete.{or_panic, delete_in_leaf, deleted_marks, kept_marks, is_blank, join_rest}

-- What is left of a text when the bytes from `a` up to `b` are deleted.
abbrev pub without : ℕ → ℕ → List ℕ → List ℕ
without a b xs = take a xs ++ drop b xs

pub without-append :
    (a b : ℕ) (xs ys : List ℕ)
    → a ≤ b
    → without a b xs ++ without (a - length xs) (b - length xs) ys ≡ without a b (xs ++ ys)
without-append a b xs ys le = elim (Bool-cases (leb a (length xs))) [
  | inl q ↦
      let inside : a - length xs ≡ 0 = omega (arith, leb→le a (length xs) q) in
      rw (take-append a xs ys, drop-append b xs ys, inside, append-nil (take a xs))
        (append_assoc (take a xs) (drop b xs) (drop (b - length xs) ys))
  | inr q ↦
      let far : length xs ≤ b = omega (arith, leb→gt a (length xs) q) in
      rw (take-append a xs ys, drop-append b xs ys, drop_all b xs far, append-nil (take a xs))
        (sym (append_assoc (take a xs) (take (a - length xs) ys) (drop (b - length xs) ys)))
]

without-nothing : (b : ℕ) (xs : List ℕ) → without 0 0 xs ≡ xs
without-nothing b xs = refl

-- Nothing is deleted behind the end.
pub without-behind : (a b : ℕ) (xs : List ℕ) → a ≤ b → length xs ≤ a → without a b xs ≡ xs
without-behind a b xs le h = rw (take_all a xs h, drop_all b xs (omega arith)) (append-nil xs)

drop-min : (b : ℕ) (xs : List ℕ) → drop (min b (length xs)) xs ≡ drop b xs
drop-min b xs = elim (Bool-cases (leb b (length xs))) [
  | inl q ↦
      let same : min b (length xs) ≡ b = omega (arith, leb→le b (length xs) q) in
      ap (λ k. drop k xs) same
  | inr q ↦
      let far : length xs ≤ b = omega (arith, leb→gt b (length xs) q) in
      drop_all (min b (length xs)) xs (omega arith) ∙ sym (drop_all b xs far)
]

-- An operation that returned a node for a rope with this text, and kept all that was there.
pub record Leaves (h : Heap) (out : Result (ℕ × List Decoration) × Heap) (bs : List ℕ)
    : Type 0 where
  pub id : ℕ
  pub report : List Decoration
  pub after : Heap
  pub rope : Rope
  pub returns : out ≡ (ok (id, report), after)
  pub grows : Grows h after
  pub valid : Valid after
  pub here : Here after id rope
  pub same_text : text rope ≡ bs

-- Leaving a node as it was.
pub unchanged :
    {h : Heap} (id : ℕ) (report : List Decoration) (t : Rope)
    → Valid h
    → Here h id t
    → Leaves h (return (id, report) h) (text t)
unchanged {h} id report t v here = record {
  id = id;
  report = report;
  after = h;
  rope = t;
  returns = refl;
  grows = Grows-refl h;
  valid = v;
  here = here;
  same_text = refl;
}

-- A step that made a node, with the report that it returns.
from-Makes :
    {h : Heap} {t : Rope} (m : M ℕ) (report : List Decoration)
    → Makes h (m h) t
    → Leaves h ((m >>= λ id. return (id, report)) h) (text t)
from-Makes {h} {t} m report p = record {
  id = p.id;
  report = report;
  after = p.after;
  rope = t;
  returns = bind-ok m (λ id. return (id, report)) h p.returns;
  grows = p.grows;
  valid = p.valid;
  here = p.here;
  same_text = refl;
}

pub Leaves-bind :
    {h : Heap} {xs ys : List ℕ} (m : M (ℕ × List Decoration))
    (f : ℕ × List Decoration → M (ℕ × List Decoration)) (p : Leaves h (m h) xs)
    → Leaves p.after (f (p.id, p.report) p.after) ys
    → Leaves h ((m >>= f) h) ys
Leaves-bind {h} m f p q = record {
  id = q.id;
  report = q.report;
  after = q.after;
  rope = q.rope;
  returns = bind-ok m f h p.returns ∙ q.returns;
  grows = Grows-trans p.grows q.grows;
  valid = q.valid;
  here = q.here;
  same_text = q.same_text;
}

pub with-text :
    {h : Heap} {out : Result (ℕ × List Decoration) × Heap} {xs ys : List ℕ}
    → xs ≡ ys
    → Leaves h out xs
    → Leaves h out ys
with-text {h} {out} e p = subst (Leaves h out) e p

pub no_bytes : (xs : List ℕ) → length xs ≡ 0 → xs ≡ []
no_bytes [] e = refl
no_bytes (x ∷ xs) e = absurd (omega arith)

-- A snapshot that counts as blank is one of a rope without text.
blank-text : (t : Rope) → is_blank (root_snapshot t) ≡ true → text t ≡ []
blank-text t q = no_bytes (text t) (sym (byte_count-root_snapshot t) ∙ ==→eq _ 0 (and-left _ _ q))

pub here-view : (h : Heap) (id : ℕ) (t : Rope) → Here h id t → current h id ≡ some (root_snapshot t)
here-view h id t here = Represents-view h h.current_fork h.current_revision id t here

join_rest-is :
    (h : Heap) (left right : ℕ) (s t : Rope) (deleted : List Decoration)
    → Here h left s
    → Here h right t
    → join_rest left right deleted h
      ≡ (if is_blank (root_snapshot s)
            then return (right, deleted)
            else if is_blank (root_snapshot t)
            then return (left, deleted)
            else (concatenate left right >>= λ id. return (id, deleted)))
          h
unfolding join_rest
join_rest-is h left right s t deleted l r =
    rw (here-view h left s l, or_panic, continue, here-view h right t r)

pub join_rest-Leaves :
    (h : Heap) (left right : ℕ) (s t : Rope) (deleted : List Decoration)
    → Valid h
    → Here h left s
    → Here h right t
    → Leaves h (join_rest left right deleted h) (text s ++ text t)
join_rest-Leaves h left right s t deleted v l r =
    rw (join_rest-is h left right s t deleted l r) (elim (Bool-cases (is_blank (root_snapshot s))) [
      | inl q ↦ rw (q, blank-text s q) (unchanged right deleted t v r)
      | inr q ↦ elim (Bool-cases (is_blank (root_snapshot t))) [
        | inl q' ↦ rw (q, q', blank-text t q', append-nil (text s)) (unchanged left deleted s v l)
        | inr q' ↦
            rw (q, q')
              (from-Makes (concatenate left right) deleted
                (concatenate-Makes h left right s t v l r))
      ]
    ])

pub delete_in_leaf-Leaves :
    (h : Heap) (bs : List ℕ) (ds : List Decoration) (o : Option ℕ) (start_pos end_pos offset : ℕ)
    (deleted : List Decoration)
    → Valid h
    → Leaves h
        (delete_in_leaf (create_leaf_snapshot bs ds o) start_pos end_pos offset deleted h)
        (without (start_pos - offset) (end_pos - offset) bs)
unfolding delete_in_leaf create_leaf_snapshot
delete_in_leaf-Leaves h bs ds o start_pos end_pos offset deleted v =
    let from : ℕ = start_pos - offset in
    let to : ℕ = min (end_pos - offset) (length bs) in
    with-text (ap (λ r. take from bs ++ r) (drop-min (end_pos - offset) bs)) (
      from-Makes (add_leaf (take from bs ++ drop to bs) (kept_marks from to ds) none)
        (deleted ++ deleted_marks from to offset ds)
        (add_leaf-Makes h (take from bs ++ drop to bs) (kept_marks from to ds) none v))
