-- ===== src/History/Transaction/Inside.antt =====
-- What a transaction comes to, from TransactionStart to the close of its last level: the version that
-- it started from, or one new revision.
use garland.Base.{
  ℕ, suc, ◌+◌, ◌≡◌, refl, sym, ap, ◌∙◌, subst, Bool, true, false, not, ◌&&◌, ◌||◌, List, ◌∷◌,
  length, none, some, Bool-cases, inl, inr, arith,
}
use garland.History.{
  State, TransactionState, update_info, is_at_head, record_in_transaction, record_mutation,
  create_fork_from_current, enter_revision,
}
use garland.History.Mutation.{consumed}
use garland.History.Transaction.{transaction_start, commit_revision}
use garland.History.Transaction.Nested.{close_all, any_rollback, ended, close_all-ended}

-- An edit before recordMutation: whatever it makes of the tree, it leaves the transaction, the
-- revision and the entries.
pub record Retouched (s s' : State) : Type 0 where
  pub same_transaction : s'.transaction ≡ s.transaction
  pub same_revision : s'.heap.current_revision ≡ s.heap.current_revision
  pub same_infos : s'.revision_info ≡ s.revision_info

-- The states of a transaction that started at `s`: with so many levels inside the first, and whether
-- there was an edit.
pub data Inside (s : State) (name : List ℕ) : ℕ → Bool → State → Type 0 where
  started : Inside s name 0 false (transaction_start name s)
  begun :
      {n : ℕ} {m : Bool} {mid : State} (inner : List ℕ)
      → Inside s name n m mid
      → Inside s name (suc n) m (transaction_start inner mid)
  edited :
      {n : ℕ} {m : Bool} {mid : State} (changed : State) (now : ℕ)
      → Inside s name n m mid
      → Retouched mid changed
      → Inside s name n true (record_mutation now changed).1

-- The transaction that is open.
record Open (s : State) (name : List ℕ) (n : ℕ) (m : Bool) (mid : State) : Type 0 where
  pub t : TransactionState
  pub is_open : mid.transaction ≡ some t
  pub levels : t.depth ≡ suc n
  pub same_name : t.name ≡ name
  pub unpoisoned : t.poisoned ≡ false
  pub root_kept : t.pre_transaction_root ≡ s.root
  pub fork_kept : t.pre_transaction_fork ≡ s.heap.current_fork
  pub rev_kept : t.pre_transaction_rev ≡ s.heap.current_revision
  pub pending : t.pending_revision ≡ s.heap.current_revision + 1
  pub mutated : t.has_mutations ≡ m
  pub same_revision : mid.heap.current_revision ≡ s.heap.current_revision
  pub same_infos : mid.revision_info ≡ s.revision_info

start-Open :
    (s : State) (name : List ℕ)
    → s.transaction ≡ none
    → Open s name 0 false (transaction_start name s)
unfolding transaction_start
start-Open s name e = rw e (record {
  t = _;
  is_open = refl;
  levels = refl;
  same_name = refl;
  unpoisoned = refl;
  root_kept = refl;
  fork_kept = refl;
  rev_kept = refl;
  pending = refl;
  mutated = refl;
  same_revision = refl;
  same_infos = refl;
})

begun-Open :
    (s : State) (name inner : List ℕ) (n : ℕ) (m : Bool) (mid : State)
    → Open s name n m mid
    → Open s name (suc n) m (transaction_start inner mid)
unfolding transaction_start
begun-Open s name inner n m mid o = rw o.is_open (record {
  t = record o.t { depth = o.t.depth + 1 };
  is_open = refl;
  levels = omega (arith, o.levels);
  same_name = o.same_name;
  unpoisoned = o.unpoisoned;
  root_kept = o.root_kept;
  fork_kept = o.fork_kept;
  rev_kept = o.rev_kept;
  pending = o.pending;
  mutated = o.mutated;
  same_revision = o.same_revision;
  same_infos = o.same_infos;
})

record_mutation-inside :
    (now : ℕ) (s : State) (t : TransactionState)
    → s.transaction ≡ some t
    → record_mutation now s ≡ record_in_transaction t (consumed s)
unfolding record_mutation
record_mutation-inside now s t e =
    rw (record_mutation, e)
      (ap (λ o. record_in_transaction t (record (consumed s) { transaction = o })) e)

-- recordMutation in a transaction, on a new fork or not.
recorded-Open :
    (s : State) (name : List ℕ) (n : ℕ) (m : Bool) (mid : State) (o : Open s name n m mid)
    (u : State)
    → u.heap.current_revision ≡ s.heap.current_revision
    → u.revision_info ≡ s.revision_info
    → Open s name n true (record_in_transaction o.t u).1
unfolding record_in_transaction create_fork_from_current
recorded-Open s name n m mid o u rev infos =
    elim (Bool-cases (not (is_at_head u) && not o.t.has_mutations)) [
      | inl q ↦ rw q (record {
        t = record o.t { pending_revision = u.heap.current_revision + 1; has_mutations = true };
        is_open = refl;
        levels = o.levels;
        same_name = o.same_name;
        unpoisoned = o.unpoisoned;
        root_kept = o.root_kept;
        fork_kept = o.fork_kept;
        rev_kept = o.rev_kept;
        pending = omega (arith, rev);
        mutated = refl;
        same_revision = rev;
        same_infos = infos;
      })
      | inr q ↦ rw q (record {
        t = record o.t { has_mutations = true };
        is_open = refl;
        levels = o.levels;
        same_name = o.same_name;
        unpoisoned = o.unpoisoned;
        root_kept = o.root_kept;
        fork_kept = o.fork_kept;
        rev_kept = o.rev_kept;
        pending = o.pending;
        mutated = refl;
        same_revision = rev;
        same_infos = infos;
      })
    ]

inside-Open :
    {s : State} {name : List ℕ} {n : ℕ} {m : Bool} {mid : State}
    → s.transaction ≡ none
    → Inside s name n m mid
    → Open s name n m mid
inside-Open {s} {name} e started = start-Open s name e
inside-Open {s} {name} e (begun {n = n} {m = m} {mid = mid} inner p) =
    begun-Open s name inner n m mid (inside-Open e p)
inside-Open {s} {name} e (edited {n = n} {m = m} {mid = mid} changed now p r) =
    let o = inside-Open e p in
    subst (λ out. Open s name n true out.1)
      (sym (record_mutation-inside now changed o.t (r.same_transaction ∙ o.is_open)))
      (recorded-Open s name n m mid o (consumed changed) (r.same_revision ∙ o.same_revision)
        (r.same_infos ∙ o.same_infos))

-- The version that a transaction started from, with its root, at the end of the transaction.
pub record BackAt (s after : State) : Type 0 where
  pub same_root : after.root ≡ s.root
  pub same_fork : after.heap.current_fork ≡ s.heap.current_fork
  pub same_revision : after.heap.current_revision ≡ s.heap.current_revision
  pub same_infos : after.revision_info ≡ s.revision_info
  pub closed : after.transaction ≡ none

-- The one revision that a transaction makes.
pub record Committed (s : State) (name : List ℕ) (m : Bool) (mid after : State) : Type 0 where
  pub same_root : after.root ≡ mid.root
  pub same_fork : after.heap.current_fork ≡ mid.heap.current_fork
  pub next_revision : after.heap.current_revision ≡ s.heap.current_revision + 1
  pub entries :
      after.revision_info
      ≡ update_info s.revision_info mid.heap.current_fork (s.heap.current_revision + 1) (
          some (record {
            revision = s.heap.current_revision + 1;
            name = name;
            has_changes = m;
            root_id = mid.root;
            stream_known_bytes = mid.stream_known;
          }))
  pub closed : after.transaction ≡ none

-- A transaction whose levels were all committed makes one revision, whatever was edited in it: the
-- one behind the revision that it started from, in the fork that its edits are in, with the name
-- that it started with and the last root; no other entry changes.
pub close_all-Committed :
    (s : State) (name : List ℕ) {n : ℕ} {m : Bool} {mid : State} (b : Bool) (bs : List Bool)
    → s.transaction ≡ none
    → Inside s name n m mid
    → length bs ≡ n
    → any_rollback (b ∷ bs) ≡ false
    → Committed s name m mid (close_all (b ∷ bs) mid)
unfolding ended commit_revision enter_revision
close_all-Committed s name {n} {m} {mid} b bs outside p levels kept =
    let o = inside-Open outside p in
    subst (Committed s name m mid)
      (sym (
        close_all-ended b bs mid o.t o.is_open (omega (arith, o.levels, levels))
        ∙ ap (λ x. ended o.t (x || any_rollback (b ∷ bs)) mid) o.unpoisoned
        ∙ ap (λ x. ended o.t x mid) kept))
      (record {
        same_root = refl;
        same_fork = refl;
        next_revision = o.pending;
        entries = λ i. update_info (o.same_infos i) mid.heap.current_fork (o.pending i) (
            some (record {
              revision = o.pending i;
              name = o.same_name i;
              has_changes = o.mutated i;
              root_id = mid.root;
              stream_known_bytes = mid.stream_known;
            }));
        closed = refl;
      })
