-- ===== src/History/Transaction/Empty.antt =====
-- A transaction without mutations, when the document is not at its newest revision.
use garland.Base.{ℕ, ◌+◌, ◌≡◌, false, ==_refl, none, some, List}
use garland.History.{State, RevisionInfo, enter_revision}
use garland.History.Transaction.{
  transaction_start, transaction_commit, commit_outermost, commit_revision,
}

-- The information that a commit files.
abbrev pub committed : State → List ℕ → RevisionInfo
committed s name = record {
  revision = s.heap.current_revision + 1;
  name = name;
  has_changes = false;
  root_id = s.root;
  stream_known_bytes = s.stream_known;
}

-- Outside a transaction, starting one and committing it without a mutation files the current root
-- as the next revision of the current fork, whatever revision was there.
pub empty_transaction-overwrites :
    (s : State) (name : List ℕ)
    → s.transaction ≡ none
    → (transaction_commit (transaction_start name s)).1.revision_info s.heap.current_fork
        (s.heap.current_revision + 1)
      ≡ some (committed s name)
unfolding transaction_start transaction_commit commit_outermost commit_revision enter_revision
empty_transaction-overwrites s name e =
    rw (e, ==_refl s.heap.current_fork, ==_refl (s.heap.current_revision + 1))
