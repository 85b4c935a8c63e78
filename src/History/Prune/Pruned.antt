-- ===== src/History/Prune/Pruned.antt =====
-- Prune keeps every revision that a live fork may still go to.
use garland.Base.{
  ℕ, ◌+◌, ◌≤◌, ◌≡◌, refl, sym, ap, ◌∙◌, subst, Bool, true, false, ltb, leb, ◌==◌, if◌then◌else◌,
  Option, none, some, arith, inl, inr, Bool-cases, Option-cases, ==→eq, ltb→lt,
}
use garland.Result.{ok, ok_inj}
use garland.Node.{ForkInfo}
use garland.Heap.{update}
use garland.Edit.{Document}
use garland.History.{RevisionInfo}
use garland.History.Prune.{
  revision_needed_by_others, keep_unless, pruned_away, garbage_collect, prune_to, prune,
}
use garland.History.Prune.Reach.{Inherits, Ordered, needed-Inherits}

abbrev pub Forks : Type 0
Forks = ℕ → Option ForkInfo

-- Another entry for a fork that has the same name and the same parent.
pub Ordered-update :
    (forks : Forks) (last fork : ℕ) (info new : ForkInfo)
    → Ordered forks last
    → forks fork ≡ some info
    → new.id ≡ info.id
    → new.parent_fork ≡ info.parent_fork
    → Ordered (update forks fork (some new)) last
Ordered-update forks last fork info new o e same_id same_parent = record {
  named = λ d i p. elim (Bool-cases (d == fork)) [
    | inl q ↦
        let is : new ≡ i = cc (rw q at p) in
        sym (ap (λ (x : ForkInfo). x.id) is) ∙ same_id ∙ o.named fork info e ∙ sym (==→eq d fork q)
    | inr q ↦ o.named d i (rw q at p)
  ];
  below = λ d i p. elim (Bool-cases (d == fork)) [
    | inl q ↦
        let is : new ≡ i = cc (rw q at p) in
        let up = ap (λ (x : ForkInfo). x.parent_fork) is in
        omega (arith, o.below fork info e, up, same_parent, ==→eq d fork q)
    | inr q ↦ o.below d i (rw q at p)
  ];
  counted = λ d i p. elim (Bool-cases (d == fork)) [
    | inl q ↦ omega (arith, o.counted fork info e, ==→eq d fork q)
    | inr q ↦ o.counted d i (rw q at p)
  ];
  complete = λ d i p. elim (Bool-cases (d == fork)) [
    | inl q ↦
        let is : new ≡ i = cc (rw q at p) in
        let up : info.parent_fork ≡ i.parent_fork =
          sym same_parent ∙ ap (λ (x : ForkInfo). x.parent_fork) is in
        subst (λ u. (x : ForkInfo) × (update forks fork (some new) u ≡ some x)) up
          (there (o.complete fork info e))
    | inr q ↦ there (o.complete d i (rw q at p))
  ];
}
  where
    there :
        {u : ℕ}
        → (x : ForkInfo) × (forks u ≡ some x)
        → (x : ForkInfo) × (update forks fork (some new) u ≡ some x)
    there {u} x = elim (Bool-cases (u == fork)) [ inl q ↦ (new, rw q) | inr q ↦ (x.0, rw q x.1) ]

-- An entry that is not dropped is kept.
pub kept :
    (drop : Bool) (entry : Option RevisionInfo) (i : RevisionInfo)
    → drop ≡ false
    → entry ≡ some i
    → (if drop then none else entry) ≡ some i
kept drop entry i q e = rw q e

needed-pruned_away :
    (forks : Forks) (count cur keep f rev : ℕ)
    → (f == cur) ≡ true
    → revision_needed_by_others forks count f rev ≡ true
    → pruned_away forks count cur keep f rev ≡ false
needed-pruned_away forks count cur keep f rev q needed =
    let here : revision_needed_by_others forks count cur rev ≡ true =
      subst (λ g. revision_needed_by_others forks count g rev ≡ true) (==→eq f cur q) needed in
    elim (Bool-cases (ltb rev keep)) [ inl q' ↦ rw (q, q', here) | inr q' ↦ rw (q, q') ]

-- What Prune leaves of the entries, when it prunes.
module _ (d : Document) (info : ForkInfo) (keep : ℕ) where
  pruned_forks : Forks
  pruned_forks =
      update d.state.heap.forks d.state.heap.current_fork
        (some (record info { pruned_up_to = keep }))

  pruned-forks : (prune_to info keep d).state.heap.forks ≡ pruned_forks
  unfolding prune_to garbage_collect pruned_forks
  pruned-forks = refl

  pruned-infos :
      (prune_to info keep d).state.revision_info
      ≡ keep_unless
          (pruned_away pruned_forks (d.state.next_fork_id + 1) d.state.heap.current_fork keep)
          d.state.revision_info
  unfolding prune_to garbage_collect pruned_forks
  pruned-infos = refl

  own_entry :
      (fork f : ℕ) (live : ForkInfo)
      → fork ≡ f
      → (f == d.state.heap.current_fork) ≡ true
      → pruned_forks fork ≡ some live
      → record info { pruned_up_to = keep } ≡ live
  unfolding pruned_forks
  own_entry fork f live same q there =
      let mine : (fork == d.state.heap.current_fork) ≡ true = rw same q in cc (rw mine at there)

  -- An entry that a live fork needs is not dropped.
  prune_to-keeps :
      (fork f rev : ℕ) (live : ForkInfo) (i : RevisionInfo)
      → Ordered d.state.heap.forks d.state.next_fork_id
      → d.state.heap.forks d.state.heap.current_fork ≡ some info
      → (prune_to info keep d).state.heap.forks fork ≡ some live
      → live.deleted ≡ false
      → live.pruned_up_to ≤ rev
      → Inherits (prune_to info keep d).state.heap.forks rev fork f
      → d.state.revision_info f rev ≡ some i
      → (prune_to info keep d).state.revision_info f rev ≡ some i
  unfolding pruned_forks
  prune_to-keeps fork f rev live i o here there is_live unpruned p e =
      let cur : ℕ = d.state.heap.current_fork in
      let o' : Ordered pruned_forks d.state.next_fork_id =
        Ordered-update d.state.heap.forks d.state.next_fork_id cur info
          (record info { pruned_up_to = keep }) o here refl refl in
      subst (λ infos. infos f rev ≡ some i) (sym pruned-infos) (kept _ _ i (not_dropped o') e)
    where
      not_dropped :
          Ordered pruned_forks d.state.next_fork_id
          → pruned_away pruned_forks (d.state.next_fork_id + 1) d.state.heap.current_fork keep f rev
            ≡ false
      not_dropped o' = elim (Bool-cases (f == d.state.heap.current_fork)) [
        | inr q ↦ rw q
        | inl q ↦ elim (Bool-cases (ltb rev keep)) [
          | inr q' ↦ rw (q, q')
          | inl q' ↦
              let there' : pruned_forks fork ≡ some live =
                sym (ap (λ forks. forks fork) pruned-forks) ∙ there in
              let needed =
                needed-Inherits pruned_forks d.state.next_fork_id o' fork f rev live there' is_live
                  unpruned
                  (λ same. absurd (
                    omega (
                      arith,
                      ltb→lt _ _ q',
                      unpruned,
                      ap (λ (x : ForkInfo). x.pruned_up_to) (own_entry fork f live same q there'),
                    )))
                  (subst (λ forks. Inherits forks rev fork f) pruned-forks p) in
              needed-pruned_away pruned_forks _ d.state.heap.current_fork keep f rev q needed
        ]
      ]

-- Every entry of before that a live fork needs afterwards is there afterwards.
abbrev pub Keeps : Document → Document → Type 0
Keeps d after =
    (fork f rev : ℕ) (live : ForkInfo) (i : RevisionInfo)
    → after.state.heap.forks fork ≡ some live
    → live.deleted ≡ false
    → live.pruned_up_to ≤ rev
    → Inherits after.state.heap.forks rev fork f
    → d.state.revision_info f rev ≡ some i
    → after.state.revision_info f rev ≡ some i

prune-Keeps :
    (keep : ℕ) (d after : Document)
    → Ordered d.state.heap.forks d.state.next_fork_id
    → prune keep d ≡ ok after
    → Keeps d after
unfolding prune
prune-Keeps keep d after o returns =
    elim (Option-cases (d.state.heap.forks d.state.heap.current_fork)) [
      | inl q ↦ absurd (cc (rw (prune, q) at returns))
      | inr (info, q) ↦ elim (Bool-cases (ltb info.highest_revision keep)) [
        | inl q1 ↦ absurd (cc (rw (prune, q, q1) at returns))
        | inr q1 ↦ elim (Bool-cases (leb keep info.pruned_up_to)) [
          | inl q2 ↦
              let is : d ≡ after = ok_inj (rw (prune, q, q1, q2) at returns) in
              subst (λ a. Keeps d a) is (λ fork f rev live i there is_live unpruned p e. e)
          | inr q2 ↦ elim (Bool-cases (ltb d.state.heap.current_revision keep)) [
            | inl q3 ↦ absurd (cc (rw (prune, q, q1, q2, q3) at returns))
            | inr q3 ↦
                let is : prune_to info keep d ≡ after =
                  ok_inj (rw (prune, q, q1, q2, q3) at returns) in
                subst (λ a. Keeps d a) is
                  (λ fork f rev live i. prune_to-keeps d info keep fork f rev live i o q)
          ]
        ]
      ]
    ]

-- When Prune succeeds in a document whose forks are numbered from their parents up, the entry of a
-- revision stays, if a live fork that has not pruned so far inherits the revision, over any number
-- of branches, deleted forks among them.
pub prune-keeps :
    (keep : ℕ) (d after : Document) (fork f rev : ℕ) (live : ForkInfo) (i : RevisionInfo)
    → Ordered d.state.heap.forks d.state.next_fork_id
    → prune keep d ≡ ok after
    → after.state.heap.forks fork ≡ some live
    → live.deleted ≡ false
    → live.pruned_up_to ≤ rev
    → Inherits after.state.heap.forks rev fork f
    → d.state.revision_info f rev ≡ some i
    → after.state.revision_info f rev ≡ some i
prune-keeps keep d after fork f rev live i o returns =
    prune-Keeps keep d after o returns fork f rev live i
