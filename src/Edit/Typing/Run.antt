-- ===== src/Edit/Typing/Run.antt =====
-- What recordMutation makes of an insertion that goes on a run of typing.
use garland.Base.{
  ℕ, ◌+◌, ◌≡◌, refl, sym, ap, ◌∙◌, false, ◌&&◌, List, Option, ◌==◌, none, some, arith,
}
use garland.Coalesce.{CoalescePending, coalesce_extend_run, extended}
use garland.Coalesce.Typing.{IsTyping, typed}
use garland.History.{
  State, RevisionInfo, place, is_at_head, record_mutation, record_amend, amend_or_new,
}
use garland.History.Mutation.{record_mutation-outside, amend_or_new-amend, consumed}
use garland.Edit.{counted_in}
use garland.Edit.Holds.{Retreed}
use garland.Edit.Shows.{pending}

-- The state after a run of typing went on by `size` bytes: the same fork, revision and start, the
-- new end, no other revision touched, and the run still open.
pub record GoesOn (before after : State) (size : ℕ) : Type 0 where
  pub same_fork : after.heap.current_fork ≡ before.heap.current_fork
  pub same_revision : after.heap.current_revision ≡ before.heap.current_revision
  pub same_start : after.coalesce.first ≡ before.coalesce.first
  pub new_end : after.coalesce.last ≡ before.coalesce.last + size
  pub others :
      (f r : ℕ)
      → ((f == before.heap.current_fork) && (r == before.heap.current_revision)) ≡ false
      → after.revision_info f r ≡ before.revision_info f r
  pub typing : IsTyping after.coalesce (place after)

-- An entry of the current revision that an edit amends.
module _ (s t : State) (n now : ℕ) (info : RevisionInfo) (r : Retreed s t)
    (outside : s.transaction ≡ none) (is_typing : IsTyping s.coalesce (place s)) where
  pub amended : State
  amended = (record_amend (typed s.coalesce.last n) info now (consumed t)).1

  amended-head : is_at_head amended ≡ is_at_head s
  unfolding amended record_amend
  amended-head = rw (r.grows.same_forks, r.grows.same_fork, r.grows.same_revision)

  pub amended-GoesOn : GoesOn s amended n
  unfolding amended record_amend coalesce_extend_run extended
  amended-GoesOn = record {
    same_fork = r.grows.same_fork;
    same_revision = r.grows.same_revision;
    same_start = ap (λ cs. cs.first) r.same_coalesce;
    new_end = ap (λ cs. cs.last + n) r.same_coalesce;
    others = λ f k other.
        rw (r.grows.same_fork, r.grows.same_revision, other) (ap (λ infos. infos f k) r.same_infos);
    typing = record {
      is_enabled = ap (λ cs. cs.enabled) r.same_coalesce ∙ is_typing.is_enabled;
      no_auto_bake = ap (λ cs. cs.auto_bake) r.same_coalesce ∙ is_typing.no_auto_bake;
      is_active = ap (λ cs. cs.active) r.same_coalesce ∙ is_typing.is_active;
      is_insert = refl;
      same_fork = ap (λ cs. cs.fork) r.same_coalesce ∙ is_typing.same_fork ∙ sym r.grows.same_fork;
      same_rev = ap (λ cs. cs.rev) r.same_coalesce ∙ is_typing.same_rev ∙ sym r.grows.same_revision;
      outside = rw (r.same_transaction, outside) refl;
      is_head = amended-head ∙ is_typing.is_head;
    };
  }

  -- recordMutation behind an insertion that goes on the run.
  pub record_mutation-amended :
      (bytes : List ℕ)
      → t.coalesce_pending ≡ some (typed s.coalesce.last n)
      → t.revision_info t.heap.current_fork t.heap.current_revision ≡ some info
      → (record_mutation now (counted_in bytes t)).1 ≡ counted_in bytes amended
  unfolding amended record_amend coalesce_extend_run
  record_mutation-amended bytes waits filed =
      ap (λ o. o.1)
        (record_mutation-outside now (counted_in bytes t) (r.same_transaction ∙ outside))
      ∙ ap (λ pc. (amend_or_new pc now (consumed (counted_in bytes t))).1) waits
      ∙ ap (λ o. o.1)
          (amend_or_new-amend (typed s.coalesce.last n) info now (consumed (counted_in bytes t))
            refl filed)

pub GoesOn-counted :
    (bytes : List ℕ) (v : Option CoalescePending) (s a : State) (n : ℕ)
    → GoesOn (pending v s) a n
    → GoesOn s (pending none (counted_in bytes a)) n
GoesOn-counted bytes v s a n g =
    let t = g.typing in
    record {
      same_fork = g.same_fork;
      same_revision = g.same_revision;
      same_start = g.same_start;
      new_end = g.new_end;
      others = g.others;
      typing = record {
        is_enabled = t.is_enabled;
        no_auto_bake = t.no_auto_bake;
        is_active = t.is_active;
        is_insert = t.is_insert;
        same_fork = t.same_fork;
        same_rev = t.same_rev;
        outside = t.outside;
        is_head = t.is_head;
      };
    }

pub GoesOn-trans : {a b c : State} {m n : ℕ} → GoesOn a b m → GoesOn b c n → GoesOn a c (m + n)
GoesOn-trans {a} {b} {c} p q = record {
  same_fork = q.same_fork ∙ p.same_fork;
  same_revision = q.same_revision ∙ p.same_revision;
  same_start = q.same_start ∙ p.same_start;
  new_end = omega (arith, p.new_end, q.new_end);
  others = λ f r other. q.others f r (rw (p.same_fork, p.same_revision) other) ∙ p.others f r other;
  typing = q.typing;
}
