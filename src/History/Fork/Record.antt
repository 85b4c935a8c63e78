-- ===== src/History/Fork/Record.antt =====
-- What recordMutation keeps: the invariant, and every revision that was there.
use garland.Base.{
  ℕ, ◌+◌, ◌≤◌, ◌≡◌, refl, true, false, leb, ◌==◌, Option, none, some, [], arith, Bool-cases,
  Option-cases, inl, inr, ==→eq, ==_refl, ne→==, leb→le,
}
use garland.Node.{ForkInfo}
use garland.Coalesce.{CoalescePending}
use garland.History.{
  new_fork, State, RevisionInfo, enter_revision, create_fork_from_current, is_at_head,
  fork_unless_at_head, record_new_revision,
}
use garland.History.Fork.{Reached, WellFormed, enter_revision-WellFormed, enter_revision-keeps}

no_fork : (s : State) → WellFormed s → s.heap.forks (s.next_fork_id + 1) ≡ none
no_fork s w = elim (Option-cases (s.heap.forks (s.next_fork_id + 1))) [
  | inl e ↦ e
  | inr (i, e) ↦ absurd (omega (arith, w.numbered (s.next_fork_id + 1) i e))
]

pub other_fork :
    (s : State) (w : WellFormed s) (f : ℕ) (i : ForkInfo)
    → s.heap.forks f ≡ some i
    → (f == s.next_fork_id + 1) ≡ false
other_fork s w f i e = ne→== f _ (λ same. absurd (omega (arith, same, w.numbered f i e)))

Reached-fork :
    (s : State) (w : WellFormed s) (f r : ℕ)
    → Reached s.heap.forks f r
    → Reached (create_fork_from_current s).heap.forks f r
unfolding create_fork_from_current
Reached-fork s w f r p = record {
  info = p.info;
  exists = rw (other_fork s w f p.info p.exists) p.exists;
  reached = p.reached;
}

create_fork-numbered :
    (s : State) (w : WellFormed s) (f : ℕ) (i : ForkInfo)
    → (create_fork_from_current s).heap.forks f ≡ some i
    → f ≤ s.next_fork_id + 1
unfolding create_fork_from_current
create_fork-numbered s w f i e = elim (Bool-cases (f == s.next_fork_id + 1)) [
  | inl q ↦ omega (arith, ==→eq f _ q)
  | inr q ↦ omega (arith, w.numbered f i (rw q at e))
]

pub create_fork-WellFormed : (s : State) → WellFormed s → WellFormed (create_fork_from_current s)
unfolding create_fork_from_current
create_fork-WellFormed s w = record {
  known = λ f r i e. Reached-fork s w f r (w.known f r i e);
  numbered = create_fork-numbered s w;
  current = record {
    info = new_fork s;
    exists = rw (==_refl (s.next_fork_id + 1)) refl;
    reached = omega arith;
  };
}

-- A revision above the highest of its fork is not there, and neither is one of a new fork.
pub no_next :
    (s : State) (w : WellFormed s)
    → is_at_head s ≡ true
    → s.revision_info s.heap.current_fork (s.heap.current_revision + 1) ≡ none
no_next s w q =
    elim (Option-cases (s.revision_info s.heap.current_fork (s.heap.current_revision + 1))) [
      | inl e ↦ e
      | inr (i, e) ↦
          let p = w.known s.heap.current_fork (s.heap.current_revision + 1) i e in
          let head : leb p.info.highest_revision s.heap.current_revision ≡ true =
            rw p.exists at q in
          absurd (omega (arith, p.reached, leb→le _ _ head))
    ]

pub no_next-fork :
    (s : State) (w : WellFormed s) (r : ℕ) → s.revision_info (s.next_fork_id + 1) r ≡ none
no_next-fork s w r = elim (Option-cases (s.revision_info (s.next_fork_id + 1) r)) [
  | inl e ↦ e
  | inr (i, e) ↦ let p = w.known (s.next_fork_id + 1) r i e in absurd (cc (no_fork s w, p.exists))
]

-- The state in which the new revision is entered.
forked-WellFormed : (s : State) → WellFormed s → WellFormed (fork_unless_at_head s)
forked-WellFormed s w = elim (Bool-cases (is_at_head s)) [
  | inl q ↦ rw q w
  | inr q ↦ rw q (create_fork-WellFormed s w)
]

abbrev entered : State → State
entered s =
    enter_revision ((fork_unless_at_head s).heap.current_revision + 1) [] true
      (fork_unless_at_head s)

forked-no_next :
    (s : State)
    → WellFormed s
    → (fork_unless_at_head s).revision_info
        (fork_unless_at_head s).heap.current_fork
        ((fork_unless_at_head s).heap.current_revision + 1)
      ≡ none
unfolding create_fork_from_current
forked-no_next s w = elim (Bool-cases (is_at_head s)) [
  | inl q ↦ rw q (no_next s w q)
  | inr q ↦ rw q (no_next-fork s w (s.heap.current_revision + 1))
]

forked-infos : (s : State) → (fork_unless_at_head s).revision_info ≡ s.revision_info
unfolding create_fork_from_current
forked-infos s = elim (Bool-cases (is_at_head s)) [ inl q ↦ rw q | inr q ↦ rw q ]

-- A mutation that makes a new revision, in a new fork if the document is not at its newest
-- revision, keeps the invariant.
pub record_new_revision-WellFormed :
    (s : State) (pc : Option CoalescePending) (now : ℕ)
    → WellFormed s
    → WellFormed (record_new_revision pc now s).1
unfolding record_new_revision
record_new_revision-WellFormed s pc now w =
    let e : WellFormed (entered s) =
      enter_revision-WellFormed (fork_unless_at_head s) (forked-WellFormed s w) _ [] true in
    record { known = e.known; numbered = e.numbered; current = e.current }

-- Such a mutation overwrites no revision of any fork.
pub record_new_revision-keeps :
    (s : State) (pc : Option CoalescePending) (now f r : ℕ) (i : RevisionInfo)
    → WellFormed s
    → s.revision_info f r ≡ some i
    → (record_new_revision pc now s).1.revision_info f r ≡ some i
unfolding record_new_revision
record_new_revision-keeps s pc now f r i w e =
    enter_revision-keeps (fork_unless_at_head s) (forked-WellFormed s w) _ [] true
      (forked-no_next s w) f r i (rw (forked-infos s) e)
