-- ===== src/Rope/Balance/Text.antt =====
-- Rotations keep the text.
use garland.Base.{ℕ, ◌+◌, ◌≡◌, refl, sym, ap, append_assoc, ltb, Bool-cases, inl, inr}
use garland.Result.{Result}
use garland.Node.{create_leaf_snapshot, create_internal_snapshot}
use garland.Heap.{Heap, ◌>>=◌, continue, return, concatenate}
use garland.Heap.Views.{Valid}
use garland.Heap.Represents.{
  Rope, leaf, node, text, root_snapshot, Here, Here-Grows, Makes, Makes-bind, Makes-return,
  concatenate-Makes,
}
use garland.Rope.Delete.{deref, or_panic}
use garland.Rope.Balance.{
  or_zero, get_height, concatenate_or_zero, rotate_right, rotate_left, rebalance_if_needed,
}

-- A step that returned a node for a rope with the same text.
pub record KeepsText (h : Heap) (out : Result ℕ × Heap) (t : Rope) : Type 0 where
  pub rope : Rope
  pub makes : Makes h out rope
  pub same_text : text rope ≡ text t

same : {h : Heap} (id : ℕ) (t : Rope) → Valid h → Here h id t → KeepsText h (return id h) t
same id t v here = record { rope = t; makes = Makes-return id v here; same_text = refl }

or_zero-Makes :
    {h : Heap} {t : Rope} (left right : ℕ)
    → Makes h (concatenate left right h) t
    → Makes h (concatenate_or_zero left right h) t
unfolding concatenate_or_zero
or_zero-Makes left right p = record {
  id = p.id;
  after = p.after;
  returns = ap (λ r. or_zero r.0 r.1) p.returns;
  grows = p.grows;
  valid = p.valid;
  here = p.here;
}

turn_right :
    (h : Heap) (i j k : ℕ) (l m r : Rope)
    → Valid h
    → Here h i l
    → Here h j m
    → Here h k r
    → KeepsText h
        ((concatenate_or_zero j k >>= λ new_right. concatenate_or_zero i new_right) h)
        (node 0 k (node i j l m) r)
turn_right h i j k l m r v a b c =
    let p = or_zero-Makes j k (concatenate-Makes h j k m r v b c) in
    record {
      rope = node i p.id l (node j k m r);
      makes =
          Makes-bind (concatenate_or_zero j k) (λ new_right. concatenate_or_zero i new_right) p
            (or_zero-Makes i p.id (
              concatenate-Makes p.after i p.id l (node j k m r) p.valid (Here-Grows p.grows i l a)
                p.here));
      same_text = sym (append_assoc (text l) (text m) (text r));
    }

turn_left :
    (h : Heap) (i j k : ℕ) (l m r : Rope)
    → Valid h
    → Here h i l
    → Here h j m
    → Here h k r
    → KeepsText h
        ((concatenate_or_zero i j >>= λ new_left. concatenate_or_zero new_left k) h)
        (node i 0 l (node j k m r))
turn_left h i j k l m r v a b c =
    let p = or_zero-Makes i j (concatenate-Makes h i j l m v a b) in
    record {
      rope = node p.id k (node i j l m) r;
      makes =
          Makes-bind (concatenate_or_zero i j) (λ new_left. concatenate_or_zero new_left k) p
            (or_zero-Makes p.id k (
              concatenate-Makes p.after p.id k (node i j l m) r p.valid p.here
                (Here-Grows p.grows k r c)));
      same_text = append_assoc (text l) (text m) (text r);
    }

-- rotateRight and rotateLeft return a node for a rope with the same text, whatever the shape.
pub rotate_right-KeepsText :
    (h : Heap) (id : ℕ) (t : Rope) → Valid h → Here h id t → KeepsText h (rotate_right id h) t
unfolding rotate_right root_snapshot create_leaf_snapshot create_internal_snapshot
rotate_right-KeepsText h id (leaf bs ds o) v here =
    rw (here, or_panic, continue, deref) (same id (leaf bs ds o) v here)
rotate_right-KeepsText h id (node i j (leaf bs ds o) r) v here =
    rw (here.0, or_panic, continue, deref, here.1) (same id (node i j (leaf bs ds o) r) v here)
rotate_right-KeepsText h id (node i k (node a b l m) r) v here =
    let p = turn_right h a b k l m r v here.1.1 here.1.2 here.2 in
    rw (here.0, or_panic, continue, deref, here.1.0)
      (record { rope = p.rope; makes = p.makes; same_text = p.same_text })

pub rotate_left-KeepsText :
    (h : Heap) (id : ℕ) (t : Rope) → Valid h → Here h id t → KeepsText h (rotate_left id h) t
unfolding rotate_left root_snapshot create_leaf_snapshot create_internal_snapshot
rotate_left-KeepsText h id (leaf bs ds o) v here =
    rw (here, or_panic, continue, deref) (same id (leaf bs ds o) v here)
rotate_left-KeepsText h id (node i j l (leaf bs ds o)) v here =
    rw (here.0, or_panic, continue, deref, here.2) (same id (node i j l (leaf bs ds o)) v here)
rotate_left-KeepsText h id (node i j l (node b k m r)) v here =
    let p = turn_left h i b k l m r v here.1 here.2.1 here.2.2 in
    rw (here.0, or_panic, continue, deref, here.2.0)
      (record { rope = p.rope; makes = p.makes; same_text = p.same_text })

-- rebalanceIfNeeded returns a node for a rope with the same text, and every node keeps its view at
-- every version.
pub rebalance_if_needed-KeepsText :
    (fuel : ℕ) (h : Heap) (id : ℕ) (t : Rope)
    → Valid h
    → Here h id t
    → KeepsText h (rebalance_if_needed fuel id h) t
unfolding rebalance_if_needed root_snapshot create_leaf_snapshot create_internal_snapshot
rebalance_if_needed-KeepsText fuel h id (leaf bs ds o) v here =
    rw (rebalance_if_needed, here) (same id (leaf bs ds o) v here)
rebalance_if_needed-KeepsText fuel h id (node i j l r) v here =
    elim (Bool-cases (ltb (get_height h fuel j + 2) (get_height h fuel i))) [
      | inl q ↦
          rw (rebalance_if_needed, here.0, q) (rotate_right-KeepsText h id (node i j l r) v here)
      | inr q ↦ elim (Bool-cases (ltb (get_height h fuel i + 2) (get_height h fuel j))) [
        | inl q' ↦
            rw (rebalance_if_needed, here.0, q, q')
              (rotate_left-KeepsText h id (node i j l r) v here)
        | inr q' ↦ rw (rebalance_if_needed, here.0, q, q') (same id (node i j l r) v here)
      ]
    ]
