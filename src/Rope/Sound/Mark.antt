-- ===== src/Rope/Sound/Mark.antt =====
-- Marks that are added and removed keep the order of the registry.
use garland.Base.{
  ℕ, zero, suc, ◌+◌, Bool, true, false, not, ◌&&◌, List, [], ◌∷◌, ltb, inl, inr, Bool-cases,
  if◌then◌else◌,
}
use garland.Address.{Decoration}
use garland.Node.{Snapshot}
use garland.Node.Marks.{Within}
use garland.Heap.{Heap, ◌>>=◌, return, add_leaf_quietly, concatenate}
use garland.Heap.Sound.{Sits, Sound, view-Sits}
use garland.Heap.Sound.Steps.{bind-Sound, child-Sound, concatenate-Sound}
use garland.Heap.Quiet.{add_leaf_quietly-Sound}
use garland.Rope.Sound.Delete.{deref-Sound}
use garland.Rope.Mark.{
  rebuild_from_leaf_internal, rebuild_from_leaf, without_keys, any_key, remove_decorations_internal,
}

rebuild_from_leaf_internal-Sound :
    (fuel : ℕ) (h : Heap) (snap : Snapshot) (target offset new_leaf : ℕ)
    → Sound h
    → Sound (rebuild_from_leaf_internal fuel snap target offset new_leaf h).1
unfolding rebuild_from_leaf_internal
rebuild_from_leaf_internal-Sound zero h snap target offset new_leaf v = v
rebuild_from_leaf_internal-Sound (suc fuel) h snap target offset new_leaf v =
    elim (Bool-cases snap.is_leaf) [
      | inl q ↦ rw (q, rebuild_from_leaf_internal) v
      | inr q ↦
          rw (q, rebuild_from_leaf_internal)
            (deref-Sound snap.left_id _ h v (λ l e.
              elim (Bool-cases (ltb target (offset + l.byte_count))) [
                | inl q' ↦ rw q' (
                    bind-Sound (rebuild_from_leaf_internal fuel l target offset new_leaf) _ h
                      (rebuild_from_leaf_internal-Sound fuel h l target offset new_leaf v)
                      (λ a g t v'. concatenate-Sound a snap.right_id g v'))
                | inr q' ↦ rw q' (
                    deref-Sound snap.right_id _ h v (λ r e'.
                      bind-Sound
                        (rebuild_from_leaf_internal fuel r target (offset + l.byte_count) new_leaf)
                        _ h
                        (rebuild_from_leaf_internal-Sound fuel h r target (offset + l.byte_count)
                          new_leaf v)
                        (λ a g t v'. concatenate-Sound snap.left_id a g v')))
              ]))
    ]

-- The leaf that is put in place is there already, with any fuel.
pub rebuild_from_leaf-Sound :
    (fuel : ℕ) (h : Heap) (root target new_leaf : ℕ)
    → Sound h
    → Sound (rebuild_from_leaf fuel root target new_leaf h).1
unfolding rebuild_from_leaf
rebuild_from_leaf-Sound fuel h root target new_leaf v =
    child-Sound root _ h v (λ s e. rebuild_from_leaf_internal-Sound fuel h s target 0 new_leaf v)

Within-without_keys :
    (n : ℕ) (keys : List ℕ → Bool) (ds : List Decoration)
    → Within n ds
    → Within n (without_keys keys ds)
unfolding without_keys
Within-without_keys n keys [] w = tt
Within-without_keys n keys (d ∷ ds) w = elim (Bool-cases (keys d.key)) [
  | inl q ↦ rw q (Within-without_keys n keys ds w.1)
  | inr q ↦ rw q (w.0, Within-without_keys n keys ds w.1)
]

pub remove_decorations_internal-Sound :
    (fuel : ℕ) (h : Heap) (id : ℕ) (snap : Snapshot) (keys : List ℕ → Bool)
    → Sound h
    → Sits id snap
    → Sound (remove_decorations_internal fuel id snap keys h).1
unfolding remove_decorations_internal
remove_decorations_internal-Sound zero h id snap keys v s = v
remove_decorations_internal-Sound (suc fuel) h id snap keys v (inl s) =
    rw (s.0, remove_decorations_internal)
      (elim (Bool-cases (any_key keys snap.decorations)) [
        | inl q ↦ rw q (
            bind-Sound
              (add_leaf_quietly snap.content (without_keys keys snap.decorations)
                snap.original_file_offset)
              _ h
              (add_leaf_quietly-Sound h snap.content (without_keys keys snap.decorations)
                snap.original_file_offset v (Within-without_keys _ keys snap.decorations s.2))
              (λ a g e p. p))
        | inr q ↦ rw q v
      ])
remove_decorations_internal-Sound (suc fuel) h id snap keys v (inr s) =
    rw (s.0, remove_decorations_internal)
      (deref-Sound snap.left_id _ h v (λ l e. deref-Sound snap.right_id _ h v (λ r e'.
        bind-Sound (remove_decorations_internal fuel snap.left_id l keys) _ h
          (remove_decorations_internal-Sound fuel h snap.left_id l keys v
            (view-Sits v h.current_fork h.current_revision snap.left_id l e).0)
          (λ a g t v'.
            bind-Sound (remove_decorations_internal fuel snap.right_id r keys) _ g
              (remove_decorations_internal-Sound fuel g snap.right_id r keys v'
                (view-Sits v h.current_fork h.current_revision snap.right_id r e').0)
              (λ b g' t' v''. finish a b g' v'')))))
  where
    finish :
        (a b : ℕ × Bool) (g : Heap)
        → Sound g
        → Sound
            ((if not a.1 && not b.1
                then return {A = ℕ × Bool} (id, false)
                else (concatenate a.0 b.0 >>= λ new. return {A = ℕ × Bool} (new, true)))
              g).1
    finish a b g v' = elim (Bool-cases (not a.1 && not b.1)) [
      | inl q ↦ rw q v'
      | inr q ↦
          rw q
            (bind-Sound (concatenate a.0 b.0) _ g (concatenate-Sound a.0 b.0 g v') (λ c k t p. p))
    ]
