-- ===== src/Rope/Split/Text.antt =====
-- The text that collectLeaves and splitLeaf see.
use garland.Base.{
  ℕ, zero, suc, ◌≤◌, ◌≡◌, refl, ◌∙◌, List, take, drop, length, Option, arith, ge→ltb,
}
use garland.Result.{Result, ok}
use garland.Address.{Decoration}
use garland.Utf8.{align_to_rune_boundary}
use garland.Node.{create_leaf_snapshot, create_internal_snapshot}
use garland.Heap.{Heap, ◌>>=◌, return, add_leaf}
use garland.Heap.Steps.{bind-ok}
use garland.Heap.Views.{Valid, Grows, Grows-trans}
use garland.Heap.Represents.{
  Rope, leaf, node, text, height, root_snapshot, Here, Here-Grows, add_leaf-Makes,
}
use garland.Rope.Split.{collect_leaves, split_leaf}

-- collectLeaves returns the text of the rope, with fuel for its height.
pub collect_leaves-text :
    (fuel : ℕ) (h : Heap) (id : ℕ) (t : Rope)
    → Here h id t
    → height t ≤ fuel
    → collect_leaves h fuel id ≡ text t
unfolding collect_leaves root_snapshot create_leaf_snapshot create_internal_snapshot
collect_leaves-text zero h id (leaf bs ds o) here tall = absurd (omega arith)
collect_leaves-text zero h id (node i j l r) here tall = absurd (omega arith)
collect_leaves-text (suc fuel) h id (leaf bs ds o) here tall = rw (collect_leaves, here)
collect_leaves-text (suc fuel) h id (node i j l r) here tall = rw (
  collect_leaves,
  here.0,
  collect_leaves-text fuel h i l here.1 (omega arith),
  collect_leaves-text fuel h j r here.2 (omega arith),
)

-- Two new leaves whose texts make up this one.
pub record Halves (h : Heap) (out : Result (ℕ × ℕ) × Heap) (bs : List ℕ) (at : ℕ) : Type 0 where
  pub left : ℕ
  pub right : ℕ
  pub after : Heap
  pub left_rope : Rope
  pub right_rope : Rope
  pub returns : out ≡ (ok (left, right), after)
  pub grows : Grows h after
  pub valid : Valid after
  pub left_here : Here after left left_rope
  pub right_here : Here after right right_rope
  pub left_text : text left_rope ≡ take at bs
  pub right_text : text right_rope ≡ drop at bs

two_leaves-Halves :
    (h : Heap) (bs : List ℕ) (at : ℕ) (lds rds : List Decoration) (lo ro : Option ℕ)
    → Valid h
    → Halves h
        ((add_leaf (take at bs) lds lo >>= λ left.
            add_leaf (drop at bs) rds ro >>= λ right. return (left, right))
          h)
        bs
        at
two_leaves-Halves h bs at lds rds lo ro v =
    let p = add_leaf-Makes h (take at bs) lds lo v in
    let q = add_leaf-Makes p.after (drop at bs) rds ro p.valid in
    record {
      left = p.id;
      right = q.id;
      after = q.after;
      left_rope = leaf (take at bs) lds lo;
      right_rope = leaf (drop at bs) rds ro;
      returns =
          bind-ok (add_leaf (take at bs) lds lo) _ h p.returns
          ∙ bind-ok (add_leaf (drop at bs) rds ro) (λ right. return (p.id, right)) p.after
              q.returns;
      grows = Grows-trans p.grows q.grows;
      valid = q.valid;
      left_here = Here-Grows q.grows p.id (leaf (take at bs) lds lo) p.here;
      right_here = q.here;
      left_text = refl;
      right_text = refl;
    }

-- splitLeaf at a position within a leaf returns two leaves that hold the text before and behind
-- the position, moved back to the start of a rune.
pub split_leaf-Halves :
    (h : Heap) (bs : List ℕ) (ds : List Decoration) (o : Option ℕ) (pos : ℕ)
    → Valid h
    → pos ≤ length bs
    → Halves h (split_leaf (create_leaf_snapshot bs ds o) pos h) bs (align_to_rune_boundary bs pos)
unfolding split_leaf create_leaf_snapshot
split_leaf-Halves h bs ds o pos v le =
    rw (ge→ltb (length bs) pos le)
      (two_leaves-Halves h bs (align_to_rune_boundary bs pos) _ _ _ _ v)
