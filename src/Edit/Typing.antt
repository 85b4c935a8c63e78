-- ===== src/Edit/Typing.antt =====
-- Typing a word with undo coalescing: calls of insertBytesAt at the end of the run.
pub mod Run
use garland.Base.{ℕ, ◌≤◌, ◌<◌, false, ◌&&◌, List, [], ◌∷◌, ◌++◌, length, Option}
use garland.Coalesce.{CoalescePending, coalesce_extend_run, extended}
use garland.Coalesce.Typing.{typed}
use garland.History.{State, RevisionInfo, is_at_head, record_mutation, record_amend, amend_or_new}
use garland.History.Mutation.{record_mutation-outside, amend_or_new-amend, consumed}
use garland.History.Shows.{Shows}
use garland.Edit.{Document, counted_in, insert_bytes_at}
use garland.Edit.Typing.Run.{GoesOn}

-- What is typed at once, and when.
pub record Keystroke : Type 0 where
  pub bytes : List ℕ
  pub time : ℕ

-- A call of insertBytesAt by cursor `actor` at the end of the run for each keystroke.
unfoldable pub type_all : ℕ → List Keystroke → Document → Document
type_all actor [] d = d
type_all actor (k ∷ ks) d =
    type_all actor ks (insert_bytes_at actor d.state.coalesce.last k.bytes [] false k.time d).1

abbrev pub typed_bytes : List Keystroke → List ℕ
typed_bytes [] = []
typed_bytes (k ∷ ks) = k.bytes ++ typed_bytes ks

abbrev pub AllSome : List Keystroke → Type 0
AllSome [] = 0 ≤ 0
AllSome (k ∷ ks) = (0 < length k.bytes) × AllSome ks

-- A run of typing after which the document shows this text.
pub record Typed (before after : State) (size : ℕ) (bs : List ℕ) : Type 0 where
  pub goes_on : GoesOn before after size
  pub shows : Shows after bs
