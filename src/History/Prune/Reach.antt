-- ===== src/History/Prune/Reach.antt =====
-- revisionNeededByOthers finds every live fork that has a revision from its ancestors.
use garland.Base.{
  ℕ, zero, suc, ◌+◌, ◌≤◌, ◌<◌, ◌≡◌, ◌≢◌, refl, sym, ap, ◌∙◌, subst, Bool, true, false, ltb, ◌==◌,
  Option, none, some, arith, inl, inr, Bool-cases, ne→==, le→leb, ge→ltb, ==→eq, ==→ne, or-true,
}
use garland.Node.{ForkInfo}
use garland.History.Prune.{lower, walk_reaches, needs, any_fork, revision_needed_by_others}

-- A fork has this revision from fork `f`: it is that fork, or it has it from its parent, at or above
-- the revision.
pub data Inherits (forks : ℕ → Option ForkInfo) (rev : ℕ) : ℕ → ℕ → Type 0 where
  own : (f : ℕ) → Inherits forks rev f f
  parent :
      {d up f : ℕ} (info : ForkInfo)
      → forks d ≡ some info
      → info.parent_fork ≡ up
      → up ≢ d
      → rev ≤ info.parent_revision
      → Inherits forks rev up f
      → Inherits forks rev d f

-- Forks are named by their numbers, and numbered from their parents up to `last`.
pub record Ordered (forks : ℕ → Option ForkInfo) (last : ℕ) : Type 0 where
  pub named : (d : ℕ) (info : ForkInfo) → forks d ≡ some info → info.id ≡ d
  pub below : (d : ℕ) (info : ForkInfo) → forks d ≡ some info → info.parent_fork ≤ d
  pub counted : (d : ℕ) (info : ForkInfo) → forks d ≡ some info → d ≤ last
  pub complete :
      (d : ℕ) (info : ForkInfo)
      → forks d ≡ some info
      → (up : ForkInfo) × (forks info.parent_fork ≡ some up)

abbrev Above : Option ℕ → ℕ → Type 0
Above none rev = Unit
Above (some reach) rev = rev ≤ reach

lower-Above :
    (reach : Option ℕ) (branch rev : ℕ) → Above reach rev → rev ≤ branch → rev ≤ lower reach branch
lower-Above none branch rev a le = le
lower-Above (some reach) branch rev a le = elim (Bool-cases (ltb branch reach)) [
  | inl q ↦ rw q le
  | inr q ↦ rw q a
]

module _ (forks : ℕ → Option ForkInfo) (last : ℕ) (o : Ordered forks last) where
  walk_reaches-Inherits :
      {rev d f : ℕ} (fuel : ℕ) (info : ForkInfo) (reach : Option ℕ)
      → Inherits forks rev d f
      → d ≢ f
      → d < fuel
      → forks d ≡ some info
      → Above reach rev
      → walk_reaches fuel forks info reach f rev ≡ true
  unfolding walk_reaches
  walk_reaches-Inherits {rev} {d} {f} zero info reach p ne enough e a = absurd (omega arith)
  walk_reaches-Inherits {rev} {d} {f} (suc fuel) info reach (own g) ne enough e a = absurd (ne refl)
  walk_reaches-Inherits {rev} {d} {f} (suc fuel) info reach
        (parent {up = up} from there is other le p) ne enough e a =
      let same : from ≡ info = cc (there, e) in
      let to_up : info.parent_fork ≡ up = ap (λ (x : ForkInfo). x.parent_fork) (sym same) ∙ is in
      let branch : rev ≤ info.parent_revision =
        subst (λ (x : ForkInfo). rev ≤ x.parent_revision) same le in
      let id = o.named d info e in
      let under = o.below d info e in
      let not_root : (info.parent_fork == info.id) ≡ false =
        ne→== _ _ (λ q. other (sym to_up ∙ q ∙ id)) in
      let above = lower-Above reach info.parent_revision rev a branch in
      elim (Bool-cases (info.parent_fork == f)) [
        | inl q ↦ rw (walk_reaches, not_root, q) (le→leb _ _ above)
        | inr q ↦
            let next = o.complete d info e in
            let strict : up < fuel = omega (arith, to_up, under, other) in
            rw (walk_reaches, not_root, q, next.1)
              (walk_reaches-Inherits fuel next.0 (some (lower reach info.parent_revision)) p
                (λ same_fork. absurd (==→ne _ _ q (to_up ∙ same_fork))) strict
                (ap forks (sym to_up) ∙ next.1) above)
      ]

  any_fork-true : (n k : ℕ) (test : ℕ → Bool) → k < n → test k ≡ true → any_fork n test ≡ true
  unfolding any_fork
  any_fork-true zero k test lt e = absurd (omega arith)
  any_fork-true (suc n) k test lt e = elim (Bool-cases (k == n)) [
    | inl q ↦ rw (sym (ap test (==→eq k n q)) ∙ e)
    | inr q ↦
        let below : k < n = omega (arith, ==→ne k n q) in
        rw (any_fork-true n k test below e) (or-true (test n))
  ]

  -- A live fork that has not pruned a revision, and has it from another fork, needs it there.
  pub needed-Inherits :
      (d f rev : ℕ) (info : ForkInfo)
      → forks d ≡ some info
      → info.deleted ≡ false
      → info.pruned_up_to ≤ rev
      → d ≢ f
      → Inherits forks rev d f
      → revision_needed_by_others forks (last + 1) f rev ≡ true
  unfolding revision_needed_by_others needs
  needed-Inherits d f rev info e live kept ne p =
      let id = o.named d info e in
      let other : (info.id == f) ≡ false = ne→== _ _ (λ q. ne (sym id ∙ q)) in
      let unpruned : ltb rev info.pruned_up_to ≡ false = ge→ltb _ _ kept in
      any_fork-true (last + 1) d (λ n. needs forks f rev (forks n))
        (omega (arith, o.counted d info e))
        (rw (e, live, other, unpruned)
          (walk_reaches-Inherits (suc info.id) info none p ne (omega (arith, id)) e tt))
