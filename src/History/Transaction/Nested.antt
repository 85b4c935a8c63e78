-- ===== src/History/Transaction/Nested.antt =====
-- Closing the levels of a transaction, each by a commit or by a rollback.
use garland.Base.{
  ℕ, suc, ◌-◌, ◌≡◌, refl, sym, ap, ◌∙◌, Bool, true, false, ◌||◌, List, [], ◌∷◌, length, Option,
  none, some, ltb, ◌==◌, lt→ltb, ne→==, or-true, or-false, or_assoc, Bool-cases, inl, inr, arith,
}
use garland.Node.{Snapshot}
use garland.Heap.{current}
use garland.History.{counted, State, TransactionState, update_counts_from_root}
use garland.History.Transaction.{
  transaction_commit, transaction_rollback, rollback_to_pre_transaction, commit_revision,
  commit_level, rollback_level, commit_outermost,
}

-- One level closed: `true` by TransactionRollback, `false` by TransactionCommit.
abbrev pub close : Bool → State → State
close true s = (transaction_rollback s).1
close false s = (transaction_commit s).1

abbrev pub close_all : List Bool → State → State
close_all [] s = s
close_all (b ∷ bs) s = close_all bs (close b s)

-- Whether one of the levels was rolled back.
abbrev pub any_rollback : List Bool → Bool
any_rollback [] = false
any_rollback (b ∷ bs) = b || any_rollback bs

abbrev pub with_transaction : Option TransactionState → State → State
with_transaction t s = record s { transaction = t }

-- The end of a transaction: rollbackToPreTransaction, or the commit of a revision.
unfoldable pub ended : TransactionState → Bool → State → State
unfolding rollback_to_pre_transaction commit_revision
ended t true s = with_transaction none (rollback_to_pre_transaction t s)
ended t false s = (commit_revision t s).1

last_close :
    (b : Bool) (s : State) (t : TransactionState)
    → s.transaction ≡ some t
    → t.depth ≡ 1
    → close b s ≡ ended t (t.poisoned || b) s
unfolding transaction_commit transaction_rollback commit_outermost ended
last_close true s t e d = rw (e, d, or-true t.poisoned)
last_close false s t e d =
    rw (e, d, or-false t.poisoned) (elim (Bool-cases t.poisoned) [ inl q ↦ rw q | inr q ↦ rw q ])

abbrev lowered : TransactionState → Bool → ℕ → TransactionState
lowered t b n = record t { poisoned = t.poisoned || b; depth = n }

commit-level :
    (s : State) (t : TransactionState)
    → s.transaction ≡ some t
    → transaction_commit s ≡ commit_level (ltb 0 (t.depth - 1)) t s
unfolding transaction_commit
commit-level s t e = rw e

rollback-level :
    (s : State) (t : TransactionState)
    → s.transaction ≡ some t
    → transaction_rollback s ≡ rollback_level ((t.depth - 1) == 0) t s
unfolding transaction_rollback
rollback-level s t e = rw e

inner_close :
    (b : Bool) (s : State) (t : TransactionState) (n : ℕ)
    → s.transaction ≡ some t
    → t.depth ≡ suc (suc n)
    → close b s ≡ with_transaction (some (lowered t b (suc n))) s
unfolding transaction_commit transaction_rollback
inner_close true s t n e d =
    let deep : ((t.depth - 1) == 0) ≡ false = ne→== (t.depth - 1) 0 (omega arith) in
    let one_less : t.depth - 1 ≡ suc n = omega arith in
    ap (λ r. r.1) (rollback-level s t e)
    ∙ ap (λ x. (rollback_level x t s).1) deep
    ∙ ap (λ k. with_transaction (some (record t { poisoned = true; depth = k })) s) one_less
    ∙ ap (λ x. with_transaction (some (record t { poisoned = x; depth = suc n })) s)
        (sym (or-true t.poisoned))
inner_close false s t n e d =
    let deep : ltb 0 (t.depth - 1) ≡ true = lt→ltb 0 (t.depth - 1) (omega arith) in
    let one_less : t.depth - 1 ≡ suc n = omega arith in
    ap (λ r. r.1) (commit-level s t e)
    ∙ ap (λ x. (commit_level x t s).1) deep
    ∙ ap (λ k. with_transaction (some (record t { depth = k })) s) one_less
    ∙ ap (λ x. with_transaction (some (record t { poisoned = x; depth = suc n })) s)
        (sym (or-false t.poisoned))

counted-with_transaction :
    (o : Option TransactionState) (s : State) (snap : Option Snapshot)
    → with_transaction none (counted (with_transaction o s) snap)
      ≡ with_transaction none (counted s snap)
counted-with_transaction o s none = refl
counted-with_transaction o s (some snap) = refl

-- What ends a transaction does not read the open transaction, or the depth.
ended-with_transaction :
    (t : TransactionState) (b c : Bool) (n : ℕ) (s : State) (o : Option TransactionState)
    → ended (lowered t b n) c (with_transaction o s) ≡ ended t c s
unfolding ended rollback_to_pre_transaction update_counts_from_root
ended-with_transaction t b true n s o =
    let u : State = record s {
      heap = record s.heap {
        pending_updates = [];
        current_fork = t.pre_transaction_fork;
        current_revision = t.pre_transaction_rev;
      };
      root = t.pre_transaction_root;
    } in
    counted-with_transaction o u (current u.heap u.root)
ended-with_transaction t b false n s o = refl

-- Closing all the levels of a transaction comes to one rollbackToPreTransaction if one of them was
-- rolled back, at whatever level, or the transaction was poisoned before, and otherwise to the commit
-- of one revision.
pub close_all-ended :
    (b : Bool) (bs : List Bool) (s : State) (t : TransactionState)
    → s.transaction ≡ some t
    → t.depth ≡ length (b ∷ bs)
    → close_all (b ∷ bs) s ≡ ended t (t.poisoned || any_rollback (b ∷ bs)) s
close_all-ended b [] s t e d =
    last_close b s t e d ∙ ap (λ c. ended t (t.poisoned || c) s) (sym (or-false b))
close_all-ended b (c ∷ cs) s t e d =
    let t' : TransactionState = lowered t b (suc (length cs)) in
    let s' : State = with_transaction (some t') s in
    ap (close_all (c ∷ cs)) (inner_close b s t (length cs) e d)
    ∙ close_all-ended c cs s' t' refl refl
    ∙ ended-with_transaction t b _ (suc (length cs)) s (some t')
    ∙ ap (λ x. ended t x s) (or_assoc t.poisoned b (any_rollback (c ∷ cs)))
