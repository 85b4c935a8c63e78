-- ===== src/Heap/Later.antt =====
-- The same nodes seen from another version, or with other forks.
use garland.Base.{ℕ, ◌≡◌, sym, ap, ◌∙◌, true, some, inl, inr, Option-cases}
use garland.Node.{Snapshot, Node, snapshot_at}
use garland.Node.Versions.{is_found}
use garland.Heap.{Heap, view_of, view}
use garland.Heap.Views.{Valid, content, content-view}
use garland.Heap.Represents.{Rope, leaf, node, Represents}
use garland.Heap.Sound.{Sound}

-- The heap with other forks, another version, and other updates in the queue.
pub record SameNodes (h after : Heap) : Type 0 where
  pub same_registry : after.node_registry ≡ h.node_registry
  pub same_children : after.internal_nodes_by_children ≡ h.internal_nodes_by_children
  pub same_next : after.next_node_id ≡ h.next_node_id

pub SameNodes-trans : {a b c : Heap} → SameNodes a b → SameNodes b c → SameNodes a c
SameNodes-trans p q = record {
  same_registry = q.same_registry ∙ p.same_registry;
  same_children = q.same_children ∙ p.same_children;
  same_next = q.same_next ∙ p.same_next;
}

module _ {h after : Heap} (p : SameNodes h after) where
  same_node : (id : ℕ) → after.node_registry id ≡ h.node_registry id
  same_node id = ap (λ f. f id) p.same_registry

  content-same : (id : ℕ) → content after id ≡ content h id
  content-same id = rw (same_node id)

  pub Valid-same : Valid h → Valid after
  Valid-same v = record {
    fresh = λ id above. same_node id ∙ v.fresh id (rw p.same_next at above);
    uniform = λ id n e. rw (content-same id) (v.uniform id n (sym (same_node id) ∙ e));
    joined = λ l r id e.
        let old = v.joined l r id (rw p.same_children at e) in
        record {
          left_snapshot = old.left_snapshot;
          right_snapshot = old.right_snapshot;
          left_content = content-same l ∙ old.left_content;
          right_content = content-same r ∙ old.right_content;
          joint = content-same id ∙ old.joint;
        };
  }

  pub Sound-same : Sound h → Sound after
  Sound-same v = record {
    positive = λ id n e. v.positive id n (sym (same_node id) ∙ e);
    bounded = λ id n e. rw p.same_next (v.bounded id n (sym (same_node id) ∙ e));
    sits = λ id n e. v.sits id n (sym (same_node id) ∙ e);
    filed = λ l r id e. v.filed l r id (rw p.same_children at e);
  }

  module _ (f r f' r' : ℕ)
      (finds : (n : Node)
        → is_found (snapshot_at h.forks n f r) ≡ true
        → is_found (snapshot_at after.forks n f' r') ≡ true)
      (v : Valid h) where
    -- What was seen is seen from there.
    pub view-later : (id : ℕ) (s : Snapshot) → view h f r id ≡ some s → view after f' r' id ≡ some s
    view-later id s e = elim (Option-cases (h.node_registry id)) [
      | inl n ↦ cc (rw (n, view_of) at e)
      | inr (n, m) ↦
          let there : after.node_registry id ≡ some n = same_node id ∙ m in
          let old : snapshot_at h.forks n f r ≡ some s = rw (m, view_of) at e in
          elim (Option-cases (snapshot_at after.forks n f' r')) [
            | inl x ↦ cc (rw x at (finds n (rw old)))
            | inr (t, x) ↦
                let seen : view after f' r' id ≡ some t = rw (there, view_of, x) in
                cc (
                  seen,
                  content-view (Valid-same v) f' r' id t seen,
                  content-same id,
                  content-view v f r id s e,
                )
          ]
    ]

    pub Represents-later : (id : ℕ) (t : Rope) → Represents h f r id t → Represents after f' r' id t
    Represents-later id (leaf bs ds o) q = view-later id _ q
    Represents-later id (node i j s t) q =
        (view-later id _ q.0, Represents-later i s q.1, Represents-later j t q.2)
