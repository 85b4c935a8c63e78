-- ===== src/Examples/Words.antt =====
-- Typing at the end of an open run, at the newest revision of a document of one leaf.
use garland.Base.{ℕ, true, ◌&&◌, ◌==◌, if◌then◌else◌, List, [], ◌∷◌, Option, none, some}
use garland.Heap.{Heap, add_leaf}
use garland.Heap.Sound.{Sound}
use garland.Coalesce.{CoalesceState, coalesce_insert}
use garland.History.{State, RevisionInfo}
use garland.History.Shows.{Shows}
use garland.Edit.{Document}
use garland.Edit.Typing.{Keystroke}
use garland.Examples.{no_heap, first_bytes, mark}

abbrev empty_heap : Heap
empty_heap = record no_heap { current_revision = 1 }

abbrev word_heap : Heap
word_heap = (add_leaf first_bytes (mark ∷ []) none empty_heap).1

abbrev second_info : RevisionInfo
second_info = record {
  revision = 1;
  name = [];
  has_changes = true;
  root_id = 1;
  stream_known_bytes = none;
}

abbrev second_revision : ℕ → ℕ → Option RevisionInfo
second_revision f r = if (f == 0) && (r == 1) then some second_info else none

-- The run stands on bytes 1 and 2.
abbrev open_run : CoalesceState
open_run = record {
  enabled = true;
  auto_bake = 0;
  active = true;
  fork = 0;
  rev = 1;
  kind = coalesce_insert;
  first = 1;
  last = 3;
  last_op = 0;
}

abbrev word_state : State
word_state = record {
  heap = word_heap;
  root = 1;
  next_fork_id = 0;
  revision_info = second_revision;
  total_bytes = 4;
  total_runes = 3;
  total_lines = 1;
  stream_known = none;
  transaction = none;
  coalesce = open_run;
  coalesce_pending = none;
}

abbrev word_document : Document
word_document = record { state = word_state; cursors = [] }

abbrev two_keys : List Keystroke
two_keys =
    record { bytes = 120 ∷ []; time = 4 } ∷ record { bytes = 0xC3 ∷ 0xA9 ∷ []; time = 6 } ∷ []
