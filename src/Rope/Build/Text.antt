-- ===== src/Rope/Build/Text.antt =====
-- The tree that buildBalancedSubtree returns.
use garland.Base.{
  ℕ, zero, suc, ◌+◌, ◌/◌, ◌≤◌, ◌<◌, ◌≡◌, refl, ap, ◌∙◌, List, [], ◌++◌, take, drop, length,
  length-take, length-drop, take-append-drop, arith, some, Bool-cases, inl, inr, leb→gt,
}
use garland.Result.{Result, ok}
use garland.Utf8.{align_to_rune_boundary}
use garland.Node.{Snapshot, create_leaf_snapshot, create_internal_snapshot}
use garland.Heap.{Heap, M, ◌>>=◌, return}
use garland.Heap.Steps.{bind-ok}
use garland.Heap.Views.{Valid, Grows, Grows-trans}
use garland.Heap.Represents.{Rope, leaf, node, text, root_snapshot, Here, Here-Grows, Makes}
use garland.Rope.Build.{
  fits_leaf, build_halves, build_balanced_subtree, add_initial_node, add_initial_parent,
}
use garland.Rope.Build.Endless.{is_leaf_step, halves_step}
use garland.Rope.Build.Nodes.{add_initial_node-Makes, add_initial_parent-Makes}
use garland.Rope.Build.Starts.{Dense, take-Dense, drop-Dense, middle-inside}

-- A registry in which the first revision is built.
pub record Initial (h : Heap) : Type 0 where
  pub valid : Valid h
  pub first_fork : h.current_fork ≡ 0
  pub first_revision : h.current_revision ≡ 0
  pub target : 8 ≤ h.target_leaf_size

-- A step that returned a node for a rope with this text, and its snapshot.
pub record Builds (h : Heap) (out : Result (ℕ × Snapshot) × Heap) (bs : List ℕ) : Type 0 where
  pub id : ℕ
  pub rope : Rope
  pub after : Heap
  pub returns : out ≡ (ok (id, root_snapshot rope), after)
  pub grows : Grows h after
  pub initial : Initial after
  pub here : Here after id rope
  pub same_text : text rope ≡ bs

still-Initial :
    {h : Heap} {t : Rope} {out : Result ℕ × Heap}
    → Initial h
    → out.1.target_leaf_size ≡ h.target_leaf_size
    → (p : Makes h out t) → Initial p.after
still-Initial i same p = record {
  valid = p.valid;
  first_fork = p.grows.same_fork ∙ i.first_fork;
  first_revision = p.grows.same_revision ∙ i.first_revision;
  target =
      let kept = ap (λ o. o.1.target_leaf_size) p.returns in omega (arith, i.target, same, kept);
}

Builds-leaf :
    (h : Heap) (bs : List ℕ) (offset : ℕ)
    → Initial h
    → Builds h
        ((add_initial_node (create_leaf_snapshot bs [] (some offset)) >>= λ id.
            return (id, create_leaf_snapshot bs [] (some offset)))
          h)
        bs
unfolding root_snapshot add_initial_node
Builds-leaf h bs offset i =
    let snap : Snapshot = create_leaf_snapshot bs [] (some offset) in
    let p = add_initial_node-Makes h bs [] (some offset) i.valid i.first_fork i.first_revision in
    record {
      id = p.id;
      rope = leaf bs [] (some offset);
      after = p.after;
      returns = bind-ok (add_initial_node snap) (λ id. return (id, snap)) h p.returns;
      grows = p.grows;
      initial = still-Initial i refl p;
      here = p.here;
      same_text = refl;
    }

Builds-halves :
    (build : List ℕ → ℕ → M (ℕ × Snapshot)) (h : Heap) (mid : ℕ) (bs : List ℕ) (offset : ℕ)
    (l : Builds h (build (take mid bs) offset h) (take mid bs))
    → Builds l.after (build (drop mid bs) (offset + mid) l.after) (drop mid bs)
    → Builds h (build_halves build mid bs offset h) bs
unfolding root_snapshot add_initial_parent add_initial_node
Builds-halves build h mid bs offset l r =
    let snap : Snapshot =
      create_internal_snapshot l.id r.id (root_snapshot l.rope) (root_snapshot r.rope) in
    let p =
      add_initial_parent-Makes r.after l.id r.id l.rope r.rope r.initial.valid
        (Here-Grows r.grows l.id l.rope l.here) r.here r.initial.first_fork
        r.initial.first_revision in
    record {
      id = p.id;
      rope = node l.id r.id l.rope r.rope;
      after = p.after;
      returns =
          bind-ok (build (take mid bs) offset) _ h l.returns
          ∙ bind-ok (build (drop mid bs) (offset + mid)) _ l.after r.returns
          ∙ bind-ok (add_initial_parent l.id r.id snap) (λ id. return (id, snap)) r.after p.returns;
      grows = Grows-trans l.grows (Grows-trans r.grows p.grows);
      initial = still-Initial r.initial refl p;
      here = p.here;
      same_text =
          ap (λ t. t ++ text r.rope) l.same_text
          ∙ ap (take mid bs ++◌) r.same_text
          ∙ take-append-drop mid bs;
    }

-- With fuel above the length of the data, leaves of at least eight bytes, and a start of a rune in
-- every four bytes, buildBalancedSubtree returns a node for a rope with the data as its text.
pub build_balanced_subtree-Builds :
    (fuel : ℕ) (h : Heap) (bs : List ℕ) (offset : ℕ)
    → Initial h
    → Dense bs
    → length bs < fuel
    → Builds h (build_balanced_subtree fuel bs offset h) bs
unfolding fits_leaf
build_balanced_subtree-Builds zero h bs offset i d le = absurd (omega arith)
build_balanced_subtree-Builds (suc fuel) h bs offset i d le = elim (Bool-cases (fits_leaf bs h)) [
  | inl q ↦ rw (is_leaf_step fuel h bs offset q) (Builds-leaf h bs offset i)
  | inr q ↦
      let mid : ℕ = align_to_rune_boundary bs (length bs / 2) in
      let build : List ℕ → ℕ → M (ℕ × Snapshot) =
        λ part start. build_balanced_subtree fuel part start in
      let long : h.target_leaf_size < length bs = leb→gt _ _ q in
      let inside = middle-inside bs d (omega (arith, long, i.target)) in
      let l =
        build_balanced_subtree-Builds fuel h (take mid bs) offset i (take-Dense mid bs d)
          (omega (arith, inside.1, length-take mid bs)) in
      rw (halves_step fuel h bs offset q) (
        Builds-halves build h mid bs offset l (
          build_balanced_subtree-Builds fuel l.after (drop mid bs) (offset + mid) l.initial
            (drop-Dense mid bs (omega (arith, inside.1)) d)
            (omega (arith, inside.0, length-drop mid bs))))
]
