-- ===== src/Rope/Build/Endless.antt =====
-- Data on which the recursion of buildBalancedSubtree does not end.
use garland.Base.{
  ℕ, zero, suc, ◌+◌, ◌/◌, ◌<◌, ◌≡◌, refl, ap, ◌∙◌, true, false, List, [], length, some, arith,
  gt→leb, le→leb,
}
use garland.Result.{Error, Result, ok, err, out_of_fuel}
use garland.Utf8.{align_to_rune_boundary}
use garland.Node.{Snapshot, create_leaf_snapshot}
use garland.Heap.{Heap, M, ◌>>=◌, return}
use garland.Heap.Steps.{bind-ok, bind-err}
use garland.Rope.Build.{fits_leaf, build_balanced_subtree, add_initial_node, build_halves}

-- A step that ends in an error, or one that keeps the leaf size and returns.
record Ends (h : Heap) (out : Result (ℕ × Snapshot) × Heap) : Type 0 where
  value : ℕ × Snapshot
  after : Heap
  returns : out ≡ (ok value, after)
  same_target : after.target_leaf_size ≡ h.target_leaf_size

pub is_leaf_step :
    (fuel : ℕ) (h : Heap) (bs : List ℕ) (offset : ℕ)
    → fits_leaf bs h ≡ true
    → build_balanced_subtree (suc fuel) bs offset h
      ≡ (add_initial_node (create_leaf_snapshot bs [] (some offset)) >>= λ id.
            return (id, create_leaf_snapshot bs [] (some offset)))
          h
unfolding build_balanced_subtree
is_leaf_step fuel h bs offset q = rw (build_balanced_subtree, q)

pub halves_step :
    (fuel : ℕ) (h : Heap) (bs : List ℕ) (offset : ℕ)
    → fits_leaf bs h ≡ false
    → build_balanced_subtree (suc fuel) bs offset h
      ≡ build_halves
          (λ part start. build_balanced_subtree fuel part start)
          (align_to_rune_boundary bs (length bs / 2))
          bs
          offset
          h
unfolding build_balanced_subtree
halves_step fuel h bs offset q = rw (build_balanced_subtree, q)

-- The empty half is a leaf.
nothing_left : (fuel offset : ℕ) (h : Heap) → Ends h (build_balanced_subtree (suc fuel) [] offset h)
unfolding fits_leaf add_initial_node
nothing_left fuel offset h =
    let snap : Snapshot = create_leaf_snapshot [] [] (some offset) in
    record {
      value = (h.next_node_id + 1, snap);
      after = (add_initial_node snap h).1;
      returns =
          is_leaf_step fuel h [] offset (le→leb 0 h.target_leaf_size (omega arith))
          ∙ bind-ok (add_initial_node snap) (λ id. return (id, snap)) h refl;
      same_target = refl;
    }

as_pair : {A : Type 0} {e : Error} (out : Result A × Heap) → out.0 ≡ err e → out ≡ (err e, out.1)
as_pair out p = λ i. (p i, out.1)

-- If the empty half returns and the other half does not, the whole does not.
halves-endless :
    (build : List ℕ → ℕ → M (ℕ × Snapshot)) (h : Heap) (bs : List ℕ) (offset : ℕ)
    (l : Ends h (build [] offset h))
    → (build bs (offset + 0) l.after).0 ≡ err out_of_fuel
    → (build_halves build 0 bs offset h).0 ≡ err out_of_fuel
halves-endless build h bs offset l p =
    ap (λ out. out.0)
      (bind-ok (build [] offset) _ h l.returns
        ∙ bind-err (build bs (offset + 0)) _ l.after (as_pair (build bs (offset + 0) l.after) p))

-- Data longer than a leaf whose middle is aligned back to its start: the right half is the whole
-- data again, and however deep the recursion goes, it does not return.
pub build_balanced_subtree-endless :
    (fuel : ℕ) (h : Heap) (bs : List ℕ) (offset : ℕ)
    → h.target_leaf_size < length bs
    → align_to_rune_boundary bs (length bs / 2) ≡ 0
    → (build_balanced_subtree fuel bs offset h).0 ≡ err out_of_fuel
unfolding build_balanced_subtree fits_leaf
build_balanced_subtree-endless zero h bs offset long back = refl
build_balanced_subtree-endless (suc zero) h bs offset long back =
    ap (λ out. out.0) (halves_step zero h bs offset (gt→leb (length bs) h.target_leaf_size long))
build_balanced_subtree-endless (suc (suc fuel)) h bs offset long back =
    let build : List ℕ → ℕ → M (ℕ × Snapshot) =
      λ part start. build_balanced_subtree (suc fuel) part start in
    let l = nothing_left fuel offset h in
    ap (λ out. out.0)
      (halves_step (suc fuel) h bs offset (gt→leb (length bs) h.target_leaf_size long))
    ∙ ap (λ mid. (build_halves build mid bs offset h).0) back
    ∙ halves-endless build h bs offset l (
        build_balanced_subtree-endless (suc fuel) l.after bs (offset + 0)
          (omega (arith, ap (λ n. n) l.same_target)) back)
