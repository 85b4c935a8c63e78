-- ===== src/Heap/Quiet.antt =====
-- Nodes that are made without counting a manipulation.
use garland.Base.{ℕ, refl, ap, List, Option, length}
use garland.Result.{Result}
use garland.Address.{Decoration}
use garland.Node.Marks.{Within}
use garland.Heap.{Heap, add_leaf_quietly}
use garland.Heap.Views.{Valid, Grows, Grows-trans}
use garland.Heap.Represents.{Rope, leaf, Here-Grows, Makes, add_leaf-Makes}
use garland.Heap.Sound.{Sound}
use garland.Heap.Sound.Steps.{add_leaf-Sound}

-- The registry with another count of manipulations.
abbrev pub quiet : ℕ → Heap → Heap
quiet n h = record h { node_manipulations = n }

Valid-quiet : (n : ℕ) (h : Heap) → Valid h → Valid (quiet n h)
Valid-quiet n h v = record {
  fresh = v.fresh;
  uniform = v.uniform;
  joined = λ l r id e.
      let j = v.joined l r id e in
      record {
        left_snapshot = j.left_snapshot;
        right_snapshot = j.right_snapshot;
        left_content = j.left_content;
        right_content = j.right_content;
        joint = j.joint;
      };
}

Grows-quiet : (n : ℕ) (h : Heap) → Grows h (quiet n h)
Grows-quiet n h = record {
  views = λ f r id s e. e;
  contents = λ id s e. e;
  same_forks = refl;
  same_fork = refl;
  same_revision = refl;
  same_max = refl;
}

pub Makes-quiet :
    {h : Heap} {out : Result ℕ × Heap} {t : Rope} (n : ℕ)
    → Makes h out t
    → Makes h (out.0, quiet n out.1) t
Makes-quiet {h} {out} {t} n p = record {
  id = p.id;
  after = quiet n p.after;
  returns = ap (λ o. (o.0, quiet n o.1)) p.returns;
  grows = Grows-trans p.grows (Grows-quiet n p.after);
  valid = Valid-quiet n p.after p.valid;
  here = Here-Grows (Grows-quiet n p.after) p.id t p.here;
}

pub add_leaf_quietly-Makes :
    (h : Heap) (bs : List ℕ) (decs : List Decoration) (offset : Option ℕ)
    → Valid h
    → Makes h (add_leaf_quietly bs decs offset h) (leaf bs decs offset)
unfolding add_leaf_quietly
add_leaf_quietly-Makes h bs decs offset v =
    Makes-quiet h.node_manipulations (add_leaf-Makes h bs decs offset v)

pub add_leaf_quietly-Sound :
    (h : Heap) (bs : List ℕ) (ds : List Decoration) (o : Option ℕ)
    → Sound h
    → Within (length bs) ds
    → Sound (add_leaf_quietly bs ds o h).1
unfolding add_leaf_quietly
add_leaf_quietly-Sound h bs ds o v w =
    let p = add_leaf-Sound h bs ds o v w in
    record { positive = p.positive; bounded = p.bounded; sits = p.sits; filed = p.filed }
