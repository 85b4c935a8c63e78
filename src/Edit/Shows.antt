-- ===== src/Edit/Shows.antt =====
-- insertBytesAt and deleteBytesAt: the text that the document shows after an edit.
use garland.Base.{
  ℕ, ◌+◌, ◌≤◌, ◌≡◌, refl, sym, ap, ◌∙◌, subst, Bool, false, not, ◌&&◌, List, [], ◌++◌, take, drop,
  length, ltb, ◌==◌, arith, inl, inr, Bool-cases, Option, some, none, Option-cases,
  take-append-drop, ge→ltb, ==→eq, and-left,
}
use garland.Result.{Result, ok}
use garland.Address.{RelativeDecoration}
use garland.Coalesce.{CoalesceKind, coalesce_insert, CoalescePending, coalesce_decide}
use garland.Rope.Delete.Steps.{no_bytes}
use garland.History.{
  State, ChangeResult, in_transaction, place, is_at_head, record_mutation, record_new_revision,
  record_amend, amend_or_new, enter_revision, create_fork_from_current,
}
use garland.History.Mutation.{consumed, record_mutation-outside}
use garland.History.Fork.{WellFormed, Reached}
use garland.History.Shows.{Holds, Shows, Counts}
use garland.Utf8.{rune_count}
use garland.Node.Text.{newlines}
use garland.Node.Lines.{rune_count-nil}
use garland.History.Shows.Mutation.{record_mutation-Shows}
use garland.Edit.{
  tracked_all, Document, decide, cleared, counted_in, after_insert, recorded, insert_rest,
  insert_decided, insert_bytes_at, unedited,
}
use garland.Edit.Holds.{Retreed, insert_tree-Inserts, spliced, length-spliced, newlines-spliced}

-- Another decision that waits.
abbrev pub pending : Option CoalescePending → State → State
pending pc s = record s { coalesce_pending = pc }

pub Shows-pending :
    (pc : Option CoalescePending) (s : State) (bs : List ℕ) → Shows s bs → Shows (pending pc s) bs
Shows-pending pc s bs p =
    let w = p.well_formed in
    let i = p.filed in
    record {
      holds = p.holds;
      counted = p.counted;
      outside = p.outside;
      well_formed = record { known = w.known; numbered = w.numbered; current = w.current };
      filed = record {
        info = i.info;
        filed = i.filed;
        same_revision = i.same_revision;
        same_root = i.same_root;
        has_root = i.has_root;
        node = i.node;
        registered = i.registered;
      };
      kept = p.kept;
    }

-- Deciding about a run changes nothing but the decision.
pub decide-state :
    (kind : CoalesceKind) (pos len now : ℕ) (d : Document)
    → (decide kind pos len now d).state
      ≡ pending (coalesce_decide d.state.coalesce (place d.state) kind pos len now).0 d.state
unfolding decide
decide-state kind pos len now d =
    let verdict = coalesce_decide d.state.coalesce (place d.state) kind pos len now in
    elim (Bool-cases (not (in_transaction d.state) && not verdict.1)) [
      | inl q ↦ rw q
      | inr q ↦ rw q
    ]

pub decide-Shows :
    (kind : CoalesceKind) (pos len now : ℕ) (d : Document) (bs : List ℕ)
    → Shows d.state bs
    → Shows (decide kind pos len now d).state bs
decide-Shows kind pos len now d bs p =
    subst (λ s. Shows s bs) (sym (decide-state kind pos len now d))
      (Shows-pending (coalesce_decide d.state.coalesce (place d.state) kind pos len now).0 d.state
        bs p)

-- Other counts.
abbrev pub recounted : ℕ → ℕ → ℕ → State → State
recounted a b c s = record s { total_bytes = a; total_runes = b; total_lines = c }

module _ (s s' : State) (a b c : ℕ) (r : Retreed s s') where
  Reached-retreed :
      (f n : ℕ) → Reached s.heap.forks f n → Reached (recounted a b c s').heap.forks f n
  Reached-retreed f n p = record {
    info = p.info;
    exists = ap (λ forks. forks f) r.grows.same_forks ∙ p.exists;
    reached = p.reached;
  }

  pub WellFormed-retreed : WellFormed s → WellFormed (recounted a b c s')
  WellFormed-retreed w = record {
    known = λ f n i e.
        Reached-retreed f n (w.known f n i (sym (ap (λ infos. infos f n) r.same_infos) ∙ e));
    numbered = λ f i e.
        subst (f ≤◌) (sym r.same_fork_id)
          (w.numbered f i (sym (ap (λ forks. forks f) r.grows.same_forks) ∙ e));
    current =
        subst (λ f. Reached s'.heap.forks f s'.heap.current_revision) (sym r.grows.same_fork)
          (subst (Reached s'.heap.forks s.heap.current_fork) (sym r.grows.same_revision)
            (Reached-retreed s.heap.current_fork s.heap.current_revision w.current));
  }

  -- An edit of the tree, counted and recorded, shows the text of the new tree.
  pub recorded-edit-Shows :
      (now : ℕ) (bs bs' : List ℕ)
      → Shows s bs
      → Holds s'.heap s'.root bs'
      → Counts (recounted a b c s') bs'
      → Shows (record_mutation now (recounted a b c s')).1 bs'
  recorded-edit-Shows now bs bs' p holds counted =
      record_mutation-Shows now bs' p.filed.info (recounted a b c s') holds counted
        (r.same_transaction ∙ p.outside) (WellFormed-retreed p.well_formed)
        (subst (λ f. s'.revision_info f s'.heap.current_revision ≡ some p.filed.info)
          (sym r.grows.same_fork)
          (subst (λ n. s'.revision_info s.heap.current_fork n ≡ some p.filed.info)
            (sym r.grows.same_revision)
            (ap (λ infos. infos s.heap.current_fork s.heap.current_revision) r.same_infos
              ∙ p.filed.filed)))
        (p.filed.same_revision ∙ sym r.grows.same_revision)
        (λ f e. subst (f.pruned_up_to ≤◌) (sym r.grows.same_revision) (
          p.kept f (
            sym (ap (λ forks. forks s.heap.current_fork) r.grows.same_forks)
            ∙ ap s'.heap.forks (sym r.grows.same_fork)
            ∙ e)))

total_runes-record_new_revision :
    (pc : Option CoalescePending) (now : ℕ) (s : State)
    → (record_new_revision pc now s).1.total_runes ≡ s.total_runes
unfolding record_new_revision enter_revision create_fork_from_current
total_runes-record_new_revision pc now s = elim (Bool-cases (is_at_head s)) [
  | inl q ↦ rw q
  | inr q ↦ rw q
]

total_runes-amend_or_new :
    (pc : Option CoalescePending) (now : ℕ) (s : State)
    → (amend_or_new pc now s).1.total_runes ≡ s.total_runes
unfolding record_amend record_new_revision
total_runes-amend_or_new none now s = total_runes-record_new_revision none now s
total_runes-amend_or_new (some pc) now s = elim (Bool-cases pc.amend) [
  | inr q ↦ rw q (total_runes-record_new_revision (some pc) now s)
  | inl q ↦ elim (Option-cases (s.revision_info s.heap.current_fork s.heap.current_revision)) [
    | inl e ↦ rw (q, e) (total_runes-record_new_revision (some pc) now s)
    | inr (i, e) ↦ rw (q, e)
  ]
]

-- recordMutation leaves the count of runes.
pub total_runes-record_mutation :
    (now : ℕ) (s : State)
    → s.transaction ≡ none
    → (record_mutation now s).1.total_runes ≡ s.total_runes
total_runes-record_mutation now s outside =
    ap (λ (out : ChangeResult × State). out.1.total_runes) (record_mutation-outside now s outside)
    ∙ total_runes-amend_or_new s.coalesce_pending now (consumed s)

-- An edit that succeeded, with the text that the document shows and its count of runes behind it.
pub record Edits {A : Type 0} (out : Result A × Document) (bs : List ℕ) (runes : ℕ) : Type 0 where
  pub result : A
  pub after : Document
  pub returns : out ≡ (ok result, after)
  pub shows : Shows after.state bs
  pub same_runes : after.state.total_runes ≡ runes

-- The same text and the same count, told otherwise.
pub Edits-same :
    {A : Type 0} {out : Result A × Document} {bs bs' : List ℕ} {m n : ℕ}
    → bs ≡ bs'
    → m ≡ n
    → Edits out bs m
    → Edits out bs' n
Edits-same {out = out} {bs' = bs'} {m = m} same_text same_runes p =
    subst (Edits out bs') same_runes (subst (λ t. Edits out t m) same_text p)

-- The count of runes is the one that the document has.
pub Edits-counted :
    {A : Type 0} {out : Result A × Document} {bs : List ℕ} {n : ℕ}
    → Edits out bs n
    → Edits out bs out.1.state.total_runes
Edits-counted p =
    Edits-same refl
      (sym p.same_runes
        ∙ sym (ap (λ (d : Document). d.state.total_runes) (ap (λ o. o.1) p.returns)))
      p

pub Edits-cleared :
    {A : Type 0} (out : Result A × Document) (bs : List ℕ) (runes : ℕ)
    → Edits out bs runes
    → Edits (out.0, cleared out.1) bs runes
Edits-cleared out bs runes p = record {
  result = p.result;
  after = cleared p.after;
  returns = ap (λ o. (o.0, cleared o.1)) p.returns;
  shows = Shows-pending none p.after.state bs p.shows;
  same_runes = p.same_runes;
}

-- Deciding about a run leaves the count of runes.
pub total_runes-decide :
    (kind : CoalesceKind) (pos len now : ℕ) (d : Document)
    → (decide kind pos len now d).state.total_runes ≡ d.state.total_runes
total_runes-decide kind pos len now d =
    ap (λ (s : State). s.total_runes) (decide-state kind pos len now d)

insert_decided-Edits :
    (actor pos : ℕ) (bytes : List ℕ) (decs : List RelativeDecoration) (insert_before : Bool)
    (now : ℕ) (d : Document) (bs : List ℕ)
    → Shows d.state bs
    → pos ≤ length bs
    → Edits
        (insert_decided actor pos bytes decs insert_before now d)
        (spliced pos bytes bs)
        (d.state.total_runes + rune_count bytes)
unfolding insert_decided recorded
insert_decided-Edits actor pos bytes decs insert_before now d bs p le =
    let done = insert_tree-Inserts pos bytes decs insert_before d.state bs p.holds le in
    let total : done.after.total_bytes + length bytes ≡ length (spliced pos bytes bs) =
      omega (arith, length-spliced pos bytes bs le, done.edited.same_bytes, p.counted.0) in
    let lines : done.after.total_lines + newlines bytes ≡ newlines (spliced pos bytes bs) =
      omega (arith, newlines-spliced pos bytes bs, done.edited.same_lines, p.counted.1) in
    let out = record_mutation now (counted_in bytes done.after) in
    record {
      result = out.0;
      after = record {
        state = out.1;
        cursors =
            tracked_all (counted_in bytes done.after) out.1
              (after_insert actor pos bytes insert_before) d.cursors;
      };
      returns = ap (λ o. insert_rest actor pos bytes insert_before now o d) done.returns;
      shows =
          recorded-edit-Shows d.state done.after _ _ _ done.edited.retreed now bs
            (spliced pos bytes bs) p done.edited.holds (total, lines);
      same_runes =
          total_runes-record_mutation now (counted_in bytes done.after)
            (done.edited.retreed.same_transaction ∙ p.outside)
          ∙ ap (λ n. n + rune_count bytes) done.edited.same_runes;
    }

-- insertBytesAt, outside a transaction and at a position up to the end of the text, succeeds, and
-- the document shows the text with the bytes put in there, at the revision that the edit made or
-- went on with, whether it was the newest or not; the bytes and lines counted are those of the new
-- text, the runes counted are more by those put in, and the history is in order again.
pub insert_bytes_at-Edits :
    (actor pos : ℕ) (bytes : List ℕ) (decs : List RelativeDecoration) (insert_before : Bool)
    (now : ℕ) (d : Document) (bs : List ℕ)
    → Shows d.state bs
    → pos ≤ length bs
    → Edits
        (insert_bytes_at actor pos bytes decs insert_before now d)
        (spliced pos bytes bs)
        (d.state.total_runes + rune_count bytes)
unfolding insert_bytes_at
insert_bytes_at-Edits actor pos bytes decs insert_before now d bs p le =
    elim (Bool-cases ((length bytes == 0) && (length decs == 0))) [
      | inl q ↦
          let empty : bytes ≡ [] = no_bytes bytes (==→eq _ 0 (and-left _ (length decs == 0) q)) in
          let none_more : d.state.total_runes ≡ d.state.total_runes + rune_count bytes =
            omega (arith, ap rune_count empty, rune_count-nil) in
          rw q (
            subst (λ t. Edits (unedited d) t (d.state.total_runes + rune_count bytes))
              (sym (take-append-drop pos bs)
                ∙ ap (λ b. take pos bs ++ (b ++ drop pos bs)) (sym empty))
              (record { result = _; after = d; returns = refl; shows = p; same_runes = none_more }))
      | inr q ↦
          let inside : ltb d.state.total_bytes pos ≡ false =
            ge→ltb _ _ (omega (arith, p.counted.0)) in
          rw (q, inside)
            (subst (Edits _ _)
              (ap (λ n. n + rune_count bytes)
                (total_runes-decide coalesce_insert pos (length bytes) now d))
              (Edits-cleared _ _ _ (
                insert_decided-Edits actor pos bytes decs insert_before now
                  (decide coalesce_insert pos (length bytes) now d) bs
                  (decide-Shows coalesce_insert pos (length bytes) now d bs p) le)))
    ]
