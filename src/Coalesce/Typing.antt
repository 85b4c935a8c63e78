-- ===== src/Coalesce/Typing.antt =====
-- What an edit decides when it continues a run of typing.
use garland.Base.{ℕ, ◌<◌, ◌≡◌, true, false, ◌==◌, ==_refl, ne→==, or-true, some, arith}
use garland.Coalesce.{
  coalesce_insert, CoalesceState, CoalescePending, Place, run_is_open, adjacent, coalesce_decide,
}

-- An active run of insertions at this place, with no time-based baking.
pub record IsTyping (cs : CoalesceState) (place : Place) : Type 0 where
  pub is_enabled : cs.enabled ≡ true
  pub no_auto_bake : cs.auto_bake ≡ 0
  pub is_active : cs.active ≡ true
  pub is_insert : cs.kind ≡ coalesce_insert
  pub same_fork : cs.fork ≡ place.fork
  pub same_rev : cs.rev ≡ place.revision
  pub outside : place.in_transaction ≡ false
  pub is_head : place.at_head ≡ true

abbrev pub typed : ℕ → ℕ → CoalescePending
typed pos len = record { amend = true; kind = coalesce_insert; pos = pos; length = len }

typing-is_open :
    (cs : CoalesceState) (place : Place) (now : ℕ)
    → IsTyping cs place
    → run_is_open cs place coalesce_insert now ≡ true
unfolding run_is_open
typing-is_open cs place now t = rw (
  t.is_active,
  t.same_fork,
  ==_refl place.fork,
  t.same_rev,
  ==_refl place.revision,
  t.is_insert,
  t.is_head,
  t.no_auto_bake,
)

typing-adjacent :
    (cs : CoalesceState) (place : Place) (len : ℕ)
    → IsTyping cs place
    → adjacent cs coalesce_insert cs.last len ≡ true
unfolding adjacent
typing-adjacent cs place len t = rw (t.is_insert, ==_refl cs.last, or-true (cs.last == cs.first))

-- An insertion of at least one byte at the end of the run amends.
pub coalesce_decide-typing :
    (cs : CoalesceState) (place : Place) (len now : ℕ)
    → IsTyping cs place
    → 0 < len
    → coalesce_decide cs place coalesce_insert cs.last len now ≡ (some (typed cs.last len), true)
unfolding coalesce_decide
coalesce_decide-typing cs place len now t le = rw (
  t.is_enabled,
  t.outside,
  ne→== len 0 (omega arith),
  typing-is_open cs place now t,
  typing-adjacent cs place len t,
)
