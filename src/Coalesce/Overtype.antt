-- ===== src/Coalesce/Overtype.antt =====
-- The switch from overwriting to inserting goes one way.
use garland.Base.{
  ℕ, ◌≡◌, refl, Bool, true, false, not, ◌&&◌, ◌||◌, ◌==◌, some, Bool-cases, inl, inr,
}
use garland.Coalesce.{
  CoalesceKind, coalesce_insert, coalesce_overwrite, CoalesceState, CoalescePending, Place,
  run_is_open, coalesce_decide, coalesce_extend_run,
}

abbrev refused : CoalesceState → Place → ℕ → Bool
refused cs place len = not cs.enabled || (place.in_transaction || (len == 0))

-- A decision carries the kind of its edit.
coalesce_decide-kind :
    (cs : CoalesceState) (place : Place) (kind : CoalesceKind) (pos len now : ℕ)
    (pc : CoalescePending)
    → (coalesce_decide cs place kind pos len now).0 ≡ some pc
    → pc.kind ≡ kind
unfolding coalesce_decide
coalesce_decide-kind cs place kind pos len now pc e = elim (Bool-cases (refused cs place len)) [
  | inl q ↦ absurd (cc (rw q at e))
  | inr q ↦ kind_of pc (rw q at e)
]
  where
    kind_of : {p : CoalescePending} (pc : CoalescePending) → some p ≡ some pc → pc.kind ≡ p.kind
    kind_of pc e = cc

and-false : (b : Bool) → (b && false) ≡ false
and-false true = refl
and-false false = refl

closed :
    (cs : CoalesceState) (place : Place) (now : ℕ)
    → cs.kind ≡ coalesce_insert
    → run_is_open cs place coalesce_overwrite now ≡ false
unfolding run_is_open
closed cs place now e = rw (
  e,
  and-false (cs.rev == place.revision),
  and-false (cs.fork == place.fork),
  and-false cs.active,
)

coalesce_decide-closed :
    (cs : CoalesceState) (place : Place) (pos len now : ℕ)
    → cs.kind ≡ coalesce_insert
    → (coalesce_decide cs place coalesce_overwrite pos len now).1 ≡ false
unfolding coalesce_decide
coalesce_decide-closed cs place pos len now e = elim (Bool-cases (refused cs place len)) [
  | inl q ↦ rw q
  | inr q ↦ rw (q, closed cs place now e)
]

-- When an insertion has gone on a run, whatever its kind was, no overwrite goes on it.
pub overtype-one_way :
    (cs : CoalesceState) (place later : Place) (pos len now pos' len' now' : ℕ)
    (pc : CoalescePending)
    → (coalesce_decide cs place coalesce_insert pos len now).0 ≡ some pc
    → (coalesce_decide (coalesce_extend_run cs pc now) later coalesce_overwrite pos' len' now').1
      ≡ false
unfolding coalesce_extend_run
overtype-one_way cs place later pos len now pos' len' now' pc e =
    coalesce_decide-closed (coalesce_extend_run cs pc now) later pos' len' now'
      (coalesce_decide-kind cs place coalesce_insert pos len now pc e)
