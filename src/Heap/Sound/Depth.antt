-- ===== src/Heap/Sound/Depth.antt =====
-- What the order of the registry says of the ropes in it.
use garland.Base.{ℕ, suc, ◌≤◌, arith, inl, inr}
use garland.Node.{create_leaf_snapshot, create_internal_snapshot}
use garland.Heap.{Heap}
use garland.Heap.Represents.{Rope, leaf, node, height, InLeaves, root_snapshot, Represents}
use garland.Heap.Sound.{Sound, view-Sits}

-- In a registry in order, a rope that a version sees is no higher than one more than the number of
-- its root: a descent with that much fuel ends.
pub height-le :
    {h : Heap} → Sound h → (f r id : ℕ) (t : Rope) → Represents h f r id t → height t ≤ suc id
unfolding root_snapshot create_internal_snapshot
height-le v f r id (leaf bs ds o) p = omega arith
height-le v f r id (node i j s t) p =
    let left = height-le v f r i s p.1 in
    let right = height-le v f r j t p.2 in
    elim (view-Sits v f r id _ p.0).0 [ inl q ↦ absurd cc | inr q ↦ omega (arith, q.1, q.2) ]

-- Its marks lie within their leaves.
pub Represents-InLeaves :
    {h : Heap} → Sound h → (f r id : ℕ) (t : Rope) → Represents h f r id t → InLeaves t
unfolding root_snapshot create_leaf_snapshot
Represents-InLeaves v f r id (leaf bs ds o) p = elim (view-Sits v f r id _ p).0 [
  | inl q ↦ q.2
  | inr q ↦ absurd cc
]
Represents-InLeaves v f r id (node i j s t) p =
    (Represents-InLeaves v f r i s p.1, Represents-InLeaves v f r j t p.2)
