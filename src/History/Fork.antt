-- ===== src/History/Fork.antt =====
-- The invariant of forks and revisions, and that recordMutation keeps it and loses no revision.
pub mod Record
use garland.Base.{
  ℕ, ◌+◌, ◌-◌, ◌≤◌, ◌<◌, ◌≡◌, ◌≢◌, refl, sym, ap, ◌∙◌, subst, Bool, true, false, not, ◌&&◌, leb,
  ltb, ◌==◌, if◌then◌else◌, Option, none, some, List, [], arith, Bool-cases, Option-cases, inl, inr,
  ==→eq, ==→ne, ==_refl, and-left, and-right, leb→le, leb→gt, ltb→lt, ltb→ge,
}
use garland.Node.{ForkInfo}
use garland.Heap.{update}
use garland.Coalesce.{CoalescePending}
use garland.History.{
  State, RevisionInfo, raise, update_info, enter_revision, create_fork_from_current, is_at_head,
  fork_unless_at_head, record_new_revision,
}

abbrev Forks : Type 0
Forks = ℕ → Option ForkInfo

abbrev Infos : Type 0
Infos = ℕ → ℕ → Option RevisionInfo

-- A fork that exists and has reached this revision.
pub record Reached (forks : Forks) (fork rev : ℕ) : Type 0 where
  pub info : ForkInfo
  pub exists : forks fork ≡ some info
  pub reached : rev ≤ info.highest_revision

-- Revisions belong to forks that have reached them, forks have numbers up to the last one given,
-- and the current fork exists.
pub record WellFormed (s : State) : Type 0 where
  pub known : (f r : ℕ) (i : RevisionInfo) → s.revision_info f r ≡ some i → Reached s.heap.forks f r
  pub numbered : (f : ℕ) (i : ForkInfo) → s.heap.forks f ≡ some i → f ≤ s.next_fork_id
  pub current : Reached s.heap.forks s.heap.current_fork s.heap.current_revision

-- What raise makes of a fork: it has reached the new revision, and what it had.
record Raised (old : ForkInfo) (rev : ℕ) : Type 0 where
  info : ForkInfo
  is_raise : raise (some old) rev ≡ some info
  old_reached : old.highest_revision ≤ info.highest_revision
  rev_reached : rev ≤ info.highest_revision

raised : (old : ForkInfo) (rev : ℕ) → Raised old rev
raised old rev = elim (Bool-cases (ltb old.highest_revision rev)) [
  | inl q ↦ record {
    info = record old { highest_revision = rev };
    is_raise = rw q;
    old_reached = ground (arith, ltb→lt old.highest_revision rev q);
    rev_reached = omega arith;
  }
  | inr q ↦ record {
    info = old;
    is_raise = rw q;
    old_reached = omega arith;
    rev_reached = ltb→ge old.highest_revision rev q;
  }
]

Reached-new :
    (forks : Forks) (fork rev r : ℕ)
    → Reached forks fork r
    → Reached (update forks fork (raise (forks fork) rev)) fork rev
Reached-new forks fork rev r p =
    let new = raised p.info rev in
    record {
      info = new.info;
      exists = rw (==_refl fork, p.exists) new.is_raise;
      reached = new.rev_reached;
    }

Reached-raise :
    (forks : Forks) (fork rev f r : ℕ)
    → Reached forks f r
    → Reached (update forks fork (raise (forks fork) rev)) f r
Reached-raise forks fork rev f r p = elim (Bool-cases (f == fork)) [
  | inl q ↦
      let new = raised p.info rev in
      let same : forks fork ≡ some p.info = ap forks (sym (==→eq f fork q)) ∙ p.exists in
      record {
        info = new.info;
        exists = rw (q, same) new.is_raise;
        reached = omega (arith, p.reached, new.old_reached);
      }
  | inr q ↦ record { info = p.info; exists = rw q p.exists; reached = p.reached }
]

raise-exists :
    (o : Option ForkInfo) (rev : ℕ) (i : ForkInfo)
    → raise o rev ≡ some i
    → (old : ForkInfo) × (o ≡ some old)
raise-exists none rev i e = absurd cc
raise-exists (some old) rev i e = (old, refl)

module _ (s : State) (w : WellFormed s) (rev : ℕ) (name : List ℕ) (changes : Bool) where
  enter_revision-known :
      (f r : ℕ) (i : RevisionInfo)
      → (enter_revision rev name changes s).revision_info f r ≡ some i
      → Reached (enter_revision rev name changes s).heap.forks f r
  unfolding enter_revision
  enter_revision-known f r i e = elim (Bool-cases ((f == s.heap.current_fork) && (r == rev))) [
    | inl q ↦
        let f_is : f ≡ s.heap.current_fork = ==→eq f s.heap.current_fork (and-left _ _ q) in
        let r_is : r ≡ rev = ==→eq r rev (and-right _ _ q) in
        rw (f_is, r_is)
          (Reached-new s.heap.forks s.heap.current_fork rev s.heap.current_revision w.current)
    | inr q ↦ Reached-raise s.heap.forks s.heap.current_fork rev f r (w.known f r i (rw q at e))
  ]

  enter_revision-numbered :
      (f : ℕ) (i : ForkInfo)
      → (enter_revision rev name changes s).heap.forks f ≡ some i
      → f ≤ s.next_fork_id
  unfolding enter_revision
  enter_revision-numbered f i e = elim (Bool-cases (f == s.heap.current_fork)) [
    | inl q ↦
        let old = raise-exists (s.heap.forks s.heap.current_fork) rev i (rw q at e) in
        let f_is : f ≡ s.heap.current_fork = ==→eq f s.heap.current_fork q in
        rw f_is (w.numbered s.heap.current_fork old.0 old.1)
    | inr q ↦ w.numbered f i (rw q at e)
  ]

  pub enter_revision-WellFormed : WellFormed (enter_revision rev name changes s)
  unfolding enter_revision
  enter_revision-WellFormed = record {
    known = enter_revision-known;
    numbered = enter_revision-numbered;
    current = Reached-new s.heap.forks s.heap.current_fork rev s.heap.current_revision w.current;
  }

  -- A revision that was not there before it is entered takes the place of no other.
  pub enter_revision-keeps :
      s.revision_info s.heap.current_fork rev ≡ none
      → (f r : ℕ) (i : RevisionInfo) → s.revision_info f r ≡ some i
      → (enter_revision rev name changes s).revision_info f r ≡ some i
  unfolding enter_revision
  enter_revision-keeps fresh f r i e =
      elim (Bool-cases ((f == s.heap.current_fork) && (r == rev))) [
        | inl q ↦
            let f_is : f ≡ s.heap.current_fork = ==→eq f s.heap.current_fork (and-left _ _ q) in
            let r_is : r ≡ rev = ==→eq r rev (and-right _ _ q) in
            let there : s.revision_info s.heap.current_fork rev ≡ some i = rw (f_is, r_is) at e in
            absurd (cc (fresh, there))
        | inr q ↦ rw q e
      ]
