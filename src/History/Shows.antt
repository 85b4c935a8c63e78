-- ===== src/History/Shows.antt =====
-- A document that shows a text: the root stands for it at the current version, and the history is
-- in order.
pub mod Record
pub mod Mutation
use garland.Base.{ℕ, ◌≤◌, ◌≡◌, List, length, Option, none, some}
use garland.Node.{ForkInfo}
use garland.Node.Text.{newlines}
use garland.Heap.{Heap}
use garland.Heap.Views.{Valid}
use garland.Heap.Sound.{Sound}
use garland.Heap.Represents.{Rope, text, Here}
use garland.History.{State}
use garland.History.Fork.{WellFormed}
use garland.History.Undo.{Filed}

-- The root of a registry in order stands for a rope with this text.
pub record Holds (h : Heap) (root : ℕ) (bs : List ℕ) : Type 0 where
  pub rope : Rope
  pub valid : Valid h
  pub sound : Sound h
  pub here : Here h root rope
  pub same_text : text rope ≡ bs

-- No revision from the current one on is pruned.
abbrev pub IsKept : State → Type 0
IsKept s =
    (f : ForkInfo)
    → s.heap.forks s.heap.current_fork ≡ some f
    → f.pruned_up_to ≤ s.heap.current_revision

-- The counts of bytes and of lines are those of the text.
abbrev pub Counts : State → List ℕ → Type 0
Counts s bs = (s.total_bytes ≡ length bs) × (s.total_lines ≡ newlines bs)

pub record Shows (s : State) (bs : List ℕ) : Type 0 where
  pub holds : Holds s.heap s.root bs
  pub counted : Counts s bs
  pub outside : s.transaction ≡ none
  pub well_formed : WellFormed s
  pub filed : Filed s
  pub kept : IsKept s
