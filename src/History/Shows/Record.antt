-- ===== src/History/Shows/Record.antt =====
-- A revised edit shows the text that the root stood for when it was revised.
use garland.Base.{
  ℕ, ◌+◌, ◌≤◌, ◌<◌, ◌≡◌, refl, sym, ap, ◌∙◌, subst, true, List, [], ◌==◌, ltb, Option, none, some,
  arith, inl, inr, Bool-cases, Option-cases, ==→eq, ==_refl,
}
use garland.Node.{ForkInfo, Node, snapshot_at}
use garland.Node.Versions.{is_found}
use garland.Node.Lookup.{Extends, SameStart, is_found-later, is_found-branch}
use garland.Heap.{Heap, update, view_of}
use garland.Heap.Later.{SameNodes, Valid-same, Sound-same, Represents-later}
use garland.Heap.Represents.{Represents-view}
use garland.Coalesce.{CoalescePending}
use garland.History.{
  State, raise, new_fork, enter_revision, create_fork_from_current, is_at_head, fork_unless_at_head,
  record_new_revision,
}
use garland.History.Fork.{WellFormed}
use garland.History.Fork.Record.{other_fork, record_new_revision-WellFormed}
use garland.History.Undo.{Filed, raise-next}
use garland.History.Shows.{Holds, Shows, IsKept, Counts}

abbrev Forks : Type 0
Forks = ℕ → Option ForkInfo

Extends-trans : {a b c : Forks} → Extends a b → Extends b c → Extends a c
Extends-trans p q f info e =
    let x = p f info e in
    let y = q f x.info x.exists in
    record {
      info = y.info;
      exists = y.exists;
      same_fork = y.same_fork ∙ x.same_fork;
      same_revision = y.same_revision ∙ x.same_revision;
    }

raise-SameStart :
    (forks : Forks) (f rev : ℕ) (info : ForkInfo)
    → forks f ≡ raise (some info) rev
    → SameStart forks f info
raise-SameStart forks f rev info e = elim (Bool-cases (ltb info.highest_revision rev)) [
  | inl q ↦ record {
    info = record info { highest_revision = rev };
    exists = e ∙ rw q;
    same_fork = refl;
    same_revision = refl;
  }
  | inr q ↦ record { info = info; exists = e ∙ rw q; same_fork = refl; same_revision = refl }
]

-- A fork that reaches further starts where it did.
Extends-raise :
    (forks : Forks) (fork rev : ℕ) → Extends forks (update forks fork (raise (forks fork) rev))
Extends-raise forks fork rev f info e = elim (Bool-cases (f == fork)) [
  | inl q ↦
      let same : forks fork ≡ some info = ap forks (sym (==→eq f fork q)) ∙ e in
      raise-SameStart _ f rev info (rw q (ap (λ o. raise o rev) same))
  | inr q ↦ record { info = info; exists = rw q e; same_fork = refl; same_revision = refl }
]

module _ (s : State) (w : WellFormed s) where
  Extends-fork : Extends s.heap.forks (create_fork_from_current s).heap.forks
  unfolding create_fork_from_current
  Extends-fork f info e = record {
    info = info;
    exists = rw (other_fork s w f info e) e;
    same_fork = refl;
    same_revision = refl;
  }

  abbrev older : s.heap.current_fork < s.next_fork_id + 1
  older = omega (arith, w.numbered s.heap.current_fork w.current.info w.current.exists)

  module _ (pc : Option CoalescePending) (now : ℕ) where
    abbrev pub revised : State
    revised = (record_new_revision pc now s).1

    recorded-SameNodes : SameNodes s.heap revised.heap
    unfolding record_new_revision enter_revision create_fork_from_current
    recorded-SameNodes = elim (Bool-cases (is_at_head s)) [
      | inl q ↦ rw q (record { same_registry = refl; same_children = refl; same_next = refl })
      | inr q ↦ rw q (record { same_registry = refl; same_children = refl; same_next = refl })
    ]

    -- Every fork is there, and starts where it did.
    pub recorded-Extends : Extends s.heap.forks revised.heap.forks
    unfolding record_new_revision enter_revision create_fork_from_current
    recorded-Extends = elim (Bool-cases (is_at_head s)) [
      | inl q ↦ rw q (Extends-raise s.heap.forks s.heap.current_fork (s.heap.current_revision + 1))
      | inr q ↦ rw q (
          Extends-trans Extends-fork (
            Extends-raise (create_fork_from_current s).heap.forks (s.next_fork_id + 1)
              (s.heap.current_revision + 1)))
    ]

    -- What the version before saw, the new fork sees at its revision, and at every later one.
    pub recorded-finds :
        (r : ℕ)
        → s.heap.current_revision ≤ r
        → (n : Node)
        → is_found (snapshot_at s.heap.forks n s.heap.current_fork s.heap.current_revision) ≡ true
        → is_found (snapshot_at revised.heap.forks n revised.heap.current_fork r) ≡ true
    unfolding record_new_revision enter_revision create_fork_from_current
    recorded-finds r le n e = elim (Bool-cases (is_at_head s)) [
      | inl q ↦ rw q (
          is_found-later s.heap.forks _ n s.heap.current_fork s.heap.current_revision
            (Extends-raise s.heap.forks s.heap.current_fork (s.heap.current_revision + 1)) e r le)
      | inr q ↦ rw q (
          is_found-branch s.heap.forks _ n s.heap.current_fork s.heap.current_revision
            (Extends-trans Extends-fork (
              Extends-raise (create_fork_from_current s).heap.forks (s.next_fork_id + 1)
                (s.heap.current_revision + 1)))
            e (s.next_fork_id + 1) r
            (record (new_fork s) { highest_revision = s.heap.current_revision + 1 }) older
            (rw (==_refl (s.next_fork_id + 1))
              (raise-next (new_fork s) s.heap.current_revision (omega arith)))
            refl refl)
    ]

module _ (s : State) where
  fork_keeps-root : (fork_unless_at_head s).root ≡ s.root
  unfolding create_fork_from_current
  fork_keeps-root = elim (Bool-cases (is_at_head s)) [ inl q ↦ rw q | inr q ↦ rw q ]

  fork_keeps-lines : (fork_unless_at_head s).total_lines ≡ s.total_lines
  unfolding create_fork_from_current
  fork_keeps-lines = elim (Bool-cases (is_at_head s)) [ inl q ↦ rw q | inr q ↦ rw q ]

  fork_keeps-total : (fork_unless_at_head s).total_bytes ≡ s.total_bytes
  unfolding create_fork_from_current
  fork_keeps-total = elim (Bool-cases (is_at_head s)) [ inl q ↦ rw q | inr q ↦ rw q ]

  fork_keeps-transaction : (fork_unless_at_head s).transaction ≡ s.transaction
  unfolding create_fork_from_current
  fork_keeps-transaction = elim (Bool-cases (is_at_head s)) [ inl q ↦ rw q | inr q ↦ rw q ]

  fork_keeps-revision : (fork_unless_at_head s).heap.current_revision ≡ s.heap.current_revision
  unfolding create_fork_from_current
  fork_keeps-revision = elim (Bool-cases (is_at_head s)) [ inl q ↦ rw q | inr q ↦ rw q ]

  recorded-later :
      WellFormed s
      → (pc : Option CoalescePending) (now : ℕ)
      → s.heap.current_revision ≤ (record_new_revision pc now s).1.heap.current_revision
  unfolding record_new_revision enter_revision
  recorded-later w pc now = omega (arith, fork_keeps-revision)

raise-pruned :
    (info f : ForkInfo) (rev : ℕ)
    → raise (some info) rev ≡ some f
    → f.pruned_up_to ≡ info.pruned_up_to
raise-pruned info f rev e = elim (Bool-cases (ltb info.highest_revision rev)) [
  | inl q ↦
      let same : record info { highest_revision = rev } ≡ f = cc (rw q at e) in
      sym (ap (λ (x : ForkInfo). x.pruned_up_to) same)
  | inr q ↦ let same : info ≡ f = cc (rw q at e) in sym (ap (λ (x : ForkInfo). x.pruned_up_to) same)
]

-- The root of a document that shows a text is a node.
pub record Rooted (h : Heap) (root : ℕ) : Type 0 where
  pub node : Node
  pub registered : h.node_registry root ≡ some node

pub rooted : (h : Heap) (root : ℕ) (bs : List ℕ) → Holds h root bs → Rooted h root
rooted h root bs p = elim (Option-cases (h.node_registry root)) [
  | inl n ↦
      let view = Represents-view h h.current_fork h.current_revision root p.rope p.here in
      absurd (cc (rw (n, view_of) at view))
  | inr (n, e) ↦ record { node = n; registered = e }
]

module _ (s : State) (w : WellFormed s) (pc : Option CoalescePending) (now : ℕ) (bs : List ℕ)
    (holds : Holds s.heap s.root bs) where
  recorded-Holds : Holds (revised s w pc now).heap s.root bs
  recorded-Holds =
      let same = recorded-SameNodes s w pc now in
      record {
        rope = holds.rope;
        valid = Valid-same same holds.valid;
        sound = Sound-same same holds.sound;
        here =
            Represents-later same s.heap.current_fork s.heap.current_revision _ _
              (recorded-finds s w pc now _ (recorded-later s w pc now)) holds.valid s.root
              holds.rope holds.here;
        same_text = holds.same_text;
      }

  recorded-Filed : Filed (revised s w pc now)
  unfolding record_new_revision enter_revision create_fork_from_current
  recorded-Filed =
      let r = rooted s.heap s.root bs holds in
      let ne = holds.sound.positive s.root r.node r.registered in
      elim (Bool-cases (is_at_head s)) [
        | inl q ↦ rw q (record {
          info = record {
            revision = s.heap.current_revision + 1;
            name = [];
            has_changes = true;
            root_id = s.root;
            stream_known_bytes = s.stream_known;
          };
          filed = rw (==_refl s.heap.current_fork, ==_refl (s.heap.current_revision + 1)) refl;
          same_revision = refl;
          same_root = refl;
          has_root = ne;
          node = r.node;
          registered = r.registered;
        })
        | inr q ↦ rw q (record {
          info = record {
            revision = s.heap.current_revision + 1;
            name = [];
            has_changes = true;
            root_id = s.root;
            stream_known_bytes = s.stream_known;
          };
          filed = rw (==_refl (s.next_fork_id + 1), ==_refl (s.heap.current_revision + 1)) refl;
          same_revision = refl;
          same_root = refl;
          has_root = ne;
          node = r.node;
          registered = r.registered;
        })
      ]

  recorded-IsKept : IsKept s → IsKept (revised s w pc now)
  unfolding record_new_revision enter_revision create_fork_from_current
  recorded-IsKept kept = elim (Bool-cases (is_at_head s)) [
    | inl q ↦ rw q (λ f e.
        let step : raise (some w.current.info) (s.heap.current_revision + 1) ≡ some f =
          sym (ap (λ o. raise o (s.heap.current_revision + 1)) w.current.exists)
          ∙ (rw (==_refl s.heap.current_fork) at e) in
        omega (arith, raise-pruned w.current.info f _ step, kept w.current.info w.current.exists))
    | inr q ↦ rw q (λ f e.
        let step : raise (some (new_fork s)) (s.heap.current_revision + 1) ≡ some f =
          rw (==_refl (s.next_fork_id + 1)) at e in
        omega (arith, raise-pruned (new_fork s) f _ step))
  ]

  -- The document shows the text at the revision that was made, in its fork or in a new one.
  pub recorded-Shows : Counts s bs → s.transaction ≡ none → IsKept s → Shows (revised s w pc now) bs
  unfolding record_new_revision enter_revision create_fork_from_current
  recorded-Shows counted outside kept =
      let same : (revised s w pc now).root ≡ s.root = fork_keeps-root s in
      record {
        holds = subst (λ root. Holds (revised s w pc now).heap root bs) (sym same) recorded-Holds;
        counted = (fork_keeps-total s ∙ counted.0, fork_keeps-lines s ∙ counted.1);
        outside = fork_keeps-transaction s ∙ outside;
        well_formed = record_new_revision-WellFormed s pc now w;
        filed = recorded-Filed;
        kept = recorded-IsKept kept;
      }

-- The revision before, seen from the fork that the edit is in, has every text that it had.
pub recorded-Back :
    (s : State) (w : WellFormed s) (pc : Option CoalescePending) (now : ℕ) (root : ℕ) (bs : List ℕ)
    → Holds s.heap root bs
    → Holds
        (record (revised s w pc now).heap { current_revision = s.heap.current_revision })
        root
        bs
recorded-Back s w pc now root bs p =
    let there = recorded-SameNodes s w pc now in
    let same : SameNodes s.heap
        (record (revised s w pc now).heap { current_revision = s.heap.current_revision }) =
      record {
        same_registry = there.same_registry;
        same_children = there.same_children;
        same_next = there.same_next;
      } in
    record {
      rope = p.rope;
      valid = Valid-same same p.valid;
      sound = Sound-same same p.sound;
      here =
          Represents-later same s.heap.current_fork s.heap.current_revision _ _
            (recorded-finds s w pc now s.heap.current_revision (omega arith)) p.valid root p.rope
            p.here;
      same_text = p.same_text;
    }
