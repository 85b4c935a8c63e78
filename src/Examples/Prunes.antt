-- ===== src/Examples/Prunes.antt =====
-- Witnesses for Prune, DeleteFork, the cursors of an edit and the regions.
use garland.Base.{
  ℕ, zero, suc, ◌≤◌, ◌≡◌, refl, sym, ap, true, false, ◌==◌, leb, if◌then◌else◌, [], ◌∷◌, ◌++◌, take,
  drop, Option, none, some, arith,
}
use garland.Result.{ok, ◌>>=◌}
use garland.Node.{ForkInfo}
use garland.Cursor.{Cursor, new_cursor}
use garland.History.{RevisionInfo}
use garland.History.Prune.{prune, prune_to, delete_fork, delete_fork_of, garbage_collect, any_fork}
use garland.History.Prune.Reach.{own, parent, Ordered}
use garland.History.Prune.Pruned.{prune-keeps}
use garland.History.Prune.Deleted.{delete_fork-keeps}
use garland.Edit.{Document, after_insert}
use garland.Edit.Holds.{spliced}
use garland.Edit.Delete.{after_delete}
use garland.Edit.Cursors.{after_insert-drop, after_delete-drop}
use garland.Region.{new_region, region_insert, region_delete, region_read}
use garland.Region.Buffer.{region_delete-region_insert}
use garland.Examples.{first_bytes}
use garland.Examples.Edits.{leaf_state, new_bytes}

-- Fork 0 is at revision 3, and fork 1 branched off at its revision 1.
abbrev trunk : ForkInfo
trunk = record {
  id = 0;
  parent_fork = 0;
  parent_revision = 0;
  highest_revision = 3;
  pruned_up_to = 0;
  deleted = false;
}

abbrev branch : ForkInfo
branch = record {
  id = 1;
  parent_fork = 0;
  parent_revision = 1;
  highest_revision = 2;
  pruned_up_to = 0;
  deleted = false;
}

abbrev two_forks : ℕ → Option ForkInfo
two_forks zero = some trunk
two_forks (suc zero) = some branch
two_forks (suc (suc f)) = none

abbrev info_at : ℕ → RevisionInfo
info_at r = record {
  revision = r;
  name = [];
  has_changes = true;
  root_id = 1;
  stream_known_bytes = none;
}

abbrev infos : ℕ → ℕ → Option RevisionInfo
infos zero r = if leb r 3 then some (info_at r) else none
infos (suc zero) r = if r == 2 then some (info_at 2) else none
infos (suc (suc f)) r = none

-- The document at a fork and a revision.
abbrev branched : ℕ → ℕ → Document
branched fork rev = record {
  state = record leaf_state {
    heap = record leaf_state.heap {
      forks = two_forks;
      current_fork = fork;
      current_revision = rev;
    };
    next_fork_id = 1;
    revision_info = infos;
  };
  cursors = new_cursor 7 0 0 true ∷ [];
}

two_forks-named : (d : ℕ) (i : ForkInfo) → two_forks d ≡ some i → i.id ≡ d
two_forks-named zero i e = let same : trunk ≡ i = cc e in sym (ap (λ (x : ForkInfo). x.id) same)
two_forks-named (suc zero) i e =
    let same : branch ≡ i = cc e in sym (ap (λ (x : ForkInfo). x.id) same)
two_forks-named (suc (suc d)) i e = absurd cc

two_forks-parent : (d : ℕ) (i : ForkInfo) → two_forks d ≡ some i → i.parent_fork ≡ 0
two_forks-parent zero i e =
    let same : trunk ≡ i = cc e in sym (ap (λ (x : ForkInfo). x.parent_fork) same)
two_forks-parent (suc zero) i e =
    let same : branch ≡ i = cc e in sym (ap (λ (x : ForkInfo). x.parent_fork) same)
two_forks-parent (suc (suc d)) i e = absurd cc

two_forks-counted : (d : ℕ) (i : ForkInfo) → two_forks d ≡ some i → d ≤ 1
two_forks-counted zero i e = omega arith
two_forks-counted (suc zero) i e = omega arith
two_forks-counted (suc (suc d)) i e = absurd cc

two_forks-Ordered : Ordered two_forks 1
two_forks-Ordered = record {
  named = two_forks-named;
  below = λ d i e. omega (arith, two_forks-parent d i e);
  counted = two_forks-counted;
  complete = λ d i e. (trunk, ap two_forks (two_forks-parent d i e));
}

abbrev pruned : Document
pruned = prune_to trunk 3 (branched 0 3)

-- Fork 1 still needs revision 1 of fork 0.
prune-keeps_example : pruned.state.revision_info 0 1 ≡ some (info_at 1)
unfolding prune prune_to garbage_collect
prune-keeps_example =
    prune-keeps 3 (branched 0 3) pruned 1 0 1 branch (info_at 1) two_forks-Ordered refl refl refl
      (omega arith) (parent branch refl refl (omega arith) (omega arith) (own 0)) refl

abbrev deleted : Document
deleted = delete_fork_of trunk 0 (branched 1 2)

delete_fork-keeps_example : deleted.state.revision_info 0 1 ≡ some (info_at 1)
unfolding delete_fork delete_fork_of garbage_collect any_fork
delete_fork-keeps_example =
    delete_fork-keeps 0 (branched 1 2) deleted 1 0 1 branch (info_at 1) two_forks-Ordered refl refl
      refl (omega arith) (parent branch refl refl (omega arith) (omega arith) (own 0)) refl

-- A cursor at byte 3.
abbrev other_cursor : Cursor
other_cursor = record (new_cursor 8 0 0 true) { byte_pos = 3 }

after_insert-drop_example :
    drop (after_insert 7 2 new_bytes false other_cursor).byte_pos (spliced 2 new_bytes first_bytes)
    ≡ 97 ∷ []
unfolding new_cursor
after_insert-drop_example =
    after_insert-drop 7 2 new_bytes first_bytes false other_cursor refl (omega arith) (omega arith)

after_delete-drop_example :
    drop
      (after_delete 7 0 (take 2 (drop 0 first_bytes)) 2 leaf_state other_cursor).byte_pos
      (take 0 first_bytes ++ drop 2 first_bytes)
    ≡ 97 ∷ []
unfolding new_cursor
after_delete-drop_example =
    after_delete-drop 7 0 2 first_bytes leaf_state other_cursor refl (omega arith) (omega arith)
      (omega arith)

region_delete-region_insert_example :
    ((region_insert 2 new_bytes (new_region first_bytes) >>= region_delete 2 2)
      ≡ ok (new_region first_bytes))
    × ((region_insert 2 new_bytes (new_region first_bytes) >>= region_read 2 2) ≡ ok new_bytes)
unfolding new_region
region_delete-region_insert_example =
    region_delete-region_insert 2 new_bytes (new_region first_bytes) (omega arith)
