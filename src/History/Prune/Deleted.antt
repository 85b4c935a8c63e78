-- ===== src/History/Prune/Deleted.antt =====
-- DeleteFork keeps every revision that a live fork may still go to.
use garland.Base.{
  ℕ, ◌+◌, ◌≤◌, ◌≡◌, ◌≢◌, refl, sym, ap, ◌∙◌, subst, Bool, true, false, not, ◌&&◌, ◌==◌, some, inl,
  inr, Bool-cases, Option-cases, ==→eq,
}
use garland.Result.{ok, ok_inj}
use garland.Node.{ForkInfo}
use garland.Heap.{update}
use garland.Edit.{Document}
use garland.History.{RevisionInfo}
use garland.History.Prune.{
  revision_needed_by_others, keep_unless, deleted_away, garbage_collect, delete_fork_of,
  delete_fork, any_fork, is_live,
}
use garland.History.Prune.Reach.{Inherits, Ordered, needed-Inherits}
use garland.History.Prune.Pruned.{Forks, Ordered-update, Keeps, kept}

needed-deleted_away :
    (forks : Forks) (count gone f rev : ℕ)
    → (f == gone) ≡ true
    → revision_needed_by_others forks count f rev ≡ true
    → deleted_away forks count gone f rev ≡ false
needed-deleted_away forks count gone f rev q needed =
    let here : revision_needed_by_others forks count gone rev ≡ true =
      subst (λ g. revision_needed_by_others forks count g rev ≡ true) (==→eq f gone q) needed in
    rw (q, here)

-- What DeleteFork leaves of the entries.
module _ (d : Document) (info : ForkInfo) (gone : ℕ) where
  deleted_forks : Forks
  deleted_forks = update d.state.heap.forks gone (some (record info { deleted = true }))

  deleted-forks : (delete_fork_of info gone d).state.heap.forks ≡ deleted_forks
  unfolding delete_fork_of garbage_collect deleted_forks
  deleted-forks = refl

  deleted-infos :
      (delete_fork_of info gone d).state.revision_info
      ≡ keep_unless
          (deleted_away deleted_forks (d.state.next_fork_id + 1) gone)
          d.state.revision_info
  unfolding delete_fork_of garbage_collect deleted_forks
  deleted-infos = refl

  -- A live fork is another than the one deleted.
  live-other :
      (fork f : ℕ) (live : ForkInfo)
      → (f == gone) ≡ true
      → deleted_forks fork ≡ some live
      → live.deleted ≡ false
      → fork ≢ f
  unfolding deleted_forks
  live-other fork f live q there is_live same =
      let mine : (fork == gone) ≡ true = rw same q in
      let is : record info { deleted = true } ≡ live = cc (rw mine at there) in
      let clash : true ≡ false = ap (λ (x : ForkInfo). x.deleted) is ∙ is_live in absurd cc

  delete_fork_of-Keeps :
      Ordered d.state.heap.forks d.state.next_fork_id
      → d.state.heap.forks gone ≡ some info
      → Keeps d (delete_fork_of info gone d)
  unfolding deleted_forks
  delete_fork_of-Keeps o here fork f rev live i there is_live unpruned p e =
      let o' : Ordered deleted_forks d.state.next_fork_id =
        Ordered-update d.state.heap.forks d.state.next_fork_id gone info
          (record info { deleted = true }) o here refl refl in
      subst (λ infos. infos f rev ≡ some i) (sym deleted-infos) (kept _ _ i (not_dropped o') e)
    where
      not_dropped :
          Ordered deleted_forks d.state.next_fork_id
          → deleted_away deleted_forks (d.state.next_fork_id + 1) gone f rev ≡ false
      not_dropped o' = elim (Bool-cases (f == gone)) [
        | inr q ↦ rw q
        | inl q ↦
            let there' : deleted_forks fork ≡ some live =
              sym (ap (λ forks. forks fork) deleted-forks) ∙ there in
            needed-deleted_away deleted_forks _ gone f rev q (
              needed-Inherits deleted_forks d.state.next_fork_id o' fork f rev live there' is_live
                unpruned (live-other fork f live q there' is_live)
                (subst (λ forks. Inherits forks rev fork f) deleted-forks p))
      ]

others_live : Document → ℕ → Bool
others_live d gone =
    any_fork (d.state.next_fork_id + 1) (λ n. is_live (d.state.heap.forks n) && not (n == gone))

delete_fork-Keeps :
    (gone : ℕ) (d after : Document)
    → Ordered d.state.heap.forks d.state.next_fork_id
    → delete_fork gone d ≡ ok after
    → Keeps d after
unfolding delete_fork others_live
delete_fork-Keeps gone d after o returns = elim (Bool-cases (gone == d.state.heap.current_fork)) [
  | inl q ↦ absurd (cc (rw (delete_fork, q) at returns))
  | inr q ↦ elim (Option-cases (d.state.heap.forks gone)) [
    | inl q1 ↦ absurd (cc (rw (delete_fork, q, q1) at returns))
    | inr (info, q1) ↦ elim (Bool-cases info.deleted) [
      | inl q2 ↦
          let is : d ≡ after = ok_inj (rw (delete_fork, q, q1, q2) at returns) in
          subst (λ a. Keeps d a) is (λ fork f rev live i there is_live unpruned p e. e)
      | inr q2 ↦ elim (Bool-cases (others_live d gone)) [
        | inr q3 ↦ absurd (cc (rw (delete_fork, q, q1, q2, q3) at returns))
        | inl q3 ↦
            let is : delete_fork_of info gone d ≡ after =
              ok_inj (rw (delete_fork, q, q1, q2, q3) at returns) in
            subst (λ a. Keeps d a) is (delete_fork_of-Keeps d info gone o q1)
      ]
    ]
  ]
]

-- When DeleteFork succeeds in a document whose forks are numbered from their parents up, the entry of
-- a revision stays, if a live fork that has not pruned so far inherits the revision, also over the
-- deleted fork.
pub delete_fork-keeps :
    (gone : ℕ) (d after : Document) (fork f rev : ℕ) (live : ForkInfo) (i : RevisionInfo)
    → Ordered d.state.heap.forks d.state.next_fork_id
    → delete_fork gone d ≡ ok after
    → after.state.heap.forks fork ≡ some live
    → live.deleted ≡ false
    → live.pruned_up_to ≤ rev
    → Inherits after.state.heap.forks rev fork f
    → d.state.revision_info f rev ≡ some i
    → after.state.revision_info f rev ≡ some i
delete_fork-keeps gone d after fork f rev live i o returns =
    delete_fork-Keeps gone d after o returns fork f rev live i
