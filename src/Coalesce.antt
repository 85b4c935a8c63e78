-- ===== src/Coalesce.antt =====
-- Runs of adjacent edits (coalesce.go): the run, the decision of an edit, and what it does to the
-- run. Durations are natural numbers, 0 for no time-based baking.
pub mod Typing
pub mod Overtype
use garland.Base.{
  ℕ, ◌+◌, ◌-◌, Bool, true, false, not, ◌&&◌, ◌||◌, ltb, leb, ◌==◌, if◌then◌else◌, Option, none,
  some,
}

pub data CoalesceKind : Type 0 where
  coalesce_insert coalesce_delete coalesce_overwrite : CoalesceKind

-- coalesceKindContinues, of the kind of the run and the kind of the edit
abbrev pub coalesce_kind_continues : CoalesceKind → CoalesceKind → Bool
coalesce_kind_continues coalesce_insert coalesce_insert = true
coalesce_kind_continues coalesce_insert coalesce_delete = false
coalesce_kind_continues coalesce_insert coalesce_overwrite = false
coalesce_kind_continues coalesce_delete coalesce_insert = false
coalesce_kind_continues coalesce_delete coalesce_delete = true
coalesce_kind_continues coalesce_delete coalesce_overwrite = false
coalesce_kind_continues coalesce_overwrite coalesce_insert = true
coalesce_kind_continues coalesce_overwrite coalesce_delete = false
coalesce_kind_continues coalesce_overwrite coalesce_overwrite = true

-- coalesceState; `first` and `last` are its start and end.
pub record CoalesceState : Type 0 where
  pub enabled : Bool
  pub auto_bake : ℕ
  pub active : Bool
  pub fork : ℕ
  pub rev : ℕ
  pub kind : CoalesceKind
  pub first : ℕ
  pub last : ℕ
  pub last_op : ℕ

-- coalescePending of an edit that decided; its zero value, which is not valid, is `none` below.
pub record CoalescePending : Type 0 where
  pub amend : Bool
  pub kind : CoalesceKind
  pub pos : ℕ
  pub length : ℕ

-- What the decision reads of the document.
pub record Place : Type 0 where
  pub in_transaction : Bool
  pub fork : ℕ
  pub revision : ℕ
  pub at_head : Bool

-- SetUndoCoalescing
abbrev pub set_undo_coalescing : Bool → ℕ → CoalesceState → CoalesceState
set_undo_coalescing enabled auto_bake cs = record cs {
  enabled = enabled;
  auto_bake = auto_bake;
  active = false;
}

-- UndoCoalescing
abbrev pub undo_coalescing : CoalesceState → Bool × ℕ
undo_coalescing cs = (cs.enabled, cs.auto_bake)

-- Bake
abbrev pub bake : CoalesceState → CoalesceState
bake cs = record cs { active = false }

-- Whether an edit of this kind touches the run where its next edit belongs.
unfoldable pub adjacent : CoalesceState → CoalesceKind → ℕ → ℕ → Bool
adjacent cs coalesce_insert pos len = elim cs.kind [
  | coalesce_overwrite ↦ pos == cs.last
  | coalesce_insert ↦ (pos == cs.first) || (pos == cs.last)
  | coalesce_delete ↦ (pos == cs.first) || (pos == cs.last)
]
adjacent cs coalesce_delete pos len = (pos == cs.first) || ((pos + len) == cs.first)
adjacent cs coalesce_overwrite pos len = pos == cs.last

-- Whether the run is still open for an edit of this kind at this time.
unfoldable pub run_is_open : CoalesceState → Place → CoalesceKind → ℕ → Bool
run_is_open cs place kind now =
    cs.active
    && ((cs.fork == place.fork)
        && ((cs.rev == place.revision)
            && (coalesce_kind_continues cs.kind kind
                && (place.at_head
                    && ((cs.auto_bake == 0) || leb (now - cs.last_op) cs.auto_bake)))))

-- coalesceDecideLocked: the new pending decision, and the verdict.
unfoldable pub coalesce_decide :
    CoalesceState → Place → CoalesceKind → ℕ → ℕ → ℕ → Option CoalescePending × Bool
unfolding adjacent run_is_open
coalesce_decide cs place kind pos len now =
    if not cs.enabled || (place.in_transaction || (len == 0))
    then (none, false)
    else (let amend : Bool = run_is_open cs place kind now && adjacent cs kind pos len in
        (some (record { amend = amend; kind = kind; pos = pos; length = len }), amend))

-- The region that a run starts with.
abbrev pub started_last : CoalescePending → ℕ
started_last pc = elim pc.kind [
  | coalesce_insert ↦ pc.pos + pc.length
  | coalesce_overwrite ↦ pc.pos + pc.length
  | coalesce_delete ↦ pc.pos
]

-- coalesceStartRunLocked
unfoldable pub coalesce_start_run : CoalesceState → ℕ → ℕ → CoalescePending → ℕ → CoalesceState
coalesce_start_run cs fork revision pc now = record cs {
  active = true;
  fork = fork;
  rev = revision;
  kind = pc.kind;
  first = pc.pos;
  last = started_last pc;
  last_op = now;
}

-- The region after an edit that continues the run.
unfoldable pub extended : CoalesceState → CoalescePending → ℕ × ℕ
extended cs pc = elim pc.kind [
  | coalesce_insert ↦ (cs.first, cs.last + pc.length)
  | coalesce_overwrite ↦ (cs.first, cs.last + pc.length)
  | coalesce_delete ↦
      if (pc.pos + pc.length) == cs.first then (pc.pos, pc.pos) else (cs.first, cs.last)
]

-- coalesceExtendRunLocked
unfoldable pub coalesce_extend_run : CoalesceState → CoalescePending → ℕ → CoalesceState
unfolding extended
coalesce_extend_run cs pc now = record cs {
  kind = pc.kind;
  first = (extended cs pc).0;
  last = (extended cs pc).1;
  last_op = now;
}
