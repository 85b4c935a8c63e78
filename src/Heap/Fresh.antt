-- ===== src/Heap/Fresh.antt =====
-- A node that is made leaves the views of all others.
use garland.Base.{
  ℕ, ◌+◌, ◌<◌, ◌≡◌, ◌≢◌, refl, ap, sym, ◌∙◌, subst, ◌&&◌, ◌==◌, if◌then◌else◌, arith, Option, none,
  some, inl, inr, Bool-cases, ==→eq, ==→ne,
}
use garland.Node.{Snapshot, Node, set_entry, set_snapshot, create_internal_snapshot}
use garland.Node.Versions.{AllSnapshots, snapshot_at-set_snapshot_self}
use garland.Heap.{
  Heap, view_of, view, current, put_snapshot, new_node, add_node, add_internal, update,
}
use garland.Heap.Views.{content_of, content, Joined, Valid, Grows, update_self, update_ne}

module _ {h : Heap} (v : Valid h) (snap : Snapshot) where
  made_id : ℕ
  made_id = h.next_node_id + 1

  made : Node
  made = set_snapshot h.current_fork h.current_revision snap new_node

  made_registry : ℕ → Option Node
  made_registry = update h.node_registry made_id (some made)

  made_registry-ne : (j : ℕ) → j ≢ made_id → made_registry j ≡ h.node_registry j
  unfolding made_registry
  made_registry-ne j ne = update_ne h.node_registry made_id (some made) j ne

  made_registry_self : made_registry made_id ≡ some made
  unfolding made_registry
  made_registry_self = update_self h.node_registry made_id (some made)

  -- The number was not in use.
  unused : h.node_registry made_id ≡ none
  unfolding made_id
  unused = v.fresh (h.next_node_id + 1) (omega arith)

  content-made :
      (j : ℕ) (s : Snapshot) → content h j ≡ some s → content_of (made_registry j) ≡ some s
  content-made j s e = elim (Bool-cases (j == made_id)) [
    | inl q ↦ cc (rw (==→eq j made_id q, unused) at e)
    | inr q ↦ rw (made_registry-ne j (==→ne j made_id q)) e
  ]

  content-made_self : content_of (made_registry made_id) ≡ some snap
  unfolding made set_snapshot set_entry
  content-made_self = rw made_registry_self

  view-made :
      (f r j : ℕ) (s : Snapshot)
      → view h f r j ≡ some s
      → view_of h.forks f r (made_registry j) ≡ some s
  view-made f r j s e = elim (Bool-cases (j == made_id)) [
    | inl q ↦ cc (rw (==→eq j made_id q, unused) at e)
    | inr q ↦ rw (made_registry-ne j (==→ne j made_id q)) e
  ]

  view-made_self :
      view_of h.forks h.current_fork h.current_revision (made_registry made_id) ≡ some snap
  unfolding made
  view-made_self =
      ap (view_of h.forks h.current_fork h.current_revision) made_registry_self
      ∙ snapshot_at-set_snapshot_self h.forks new_node h.current_fork h.current_revision snap

  fresh-made : (j : ℕ) → made_id < j → made_registry j ≡ none
  unfolding made_id
  fresh-made j above = made_registry-ne j (omega arith) ∙ v.fresh j (omega arith)

  history-made : AllSnapshots (λ s. content_of (made_registry made_id) ≡ some s) made.history
  unfolding made set_snapshot set_entry
  history-made = (content-made_self, tt)

  uniform-made :
      (j : ℕ) (n : Node)
      → made_registry j ≡ some n
      → AllSnapshots (λ s. content_of (made_registry j) ≡ some s) n.history
  uniform-made j n e = elim (Bool-cases (j == made_id)) [
    | inl q ↦
        subst (λ k. AllSnapshots (λ s. content_of (made_registry k) ≡ some s) n.history)
          (sym (==→eq j made_id q))
          (subst
            (λ (x : Node).
              AllSnapshots (λ s. content_of (made_registry made_id) ≡ some s) x.history)
            (cc (made_registry_self, rw (==→eq j made_id q) at e)) history-made)
    | inr q ↦
        let same = made_registry-ne j (==→ne j made_id q) in
        subst (λ o. AllSnapshots (λ s. content_of o ≡ some s) n.history) (sym same)
          (v.uniform j n (sym same ∙ e))
  ]

  pub add_node-Valid : Valid (add_node snap h).1
  unfolding add_node put_snapshot made_registry made_id made
  add_node-Valid = record {
    fresh = fresh-made;
    uniform = uniform-made;
    joined = λ l r x e.
        let old = v.joined l r x e in
        record {
          left_snapshot = old.left_snapshot;
          right_snapshot = old.right_snapshot;
          left_content = content-made l _ old.left_content;
          right_content = content-made r _ old.right_content;
          joint = content-made x _ old.joint;
        };
  }

  pub add_node-Grows : Grows h (add_node snap h).1
  unfolding add_node put_snapshot made_registry made_id made
  add_node-Grows = record {
    views = view-made;
    contents = content-made;
    same_forks = refl;
    same_fork = refl;
    same_revision = refl;
    same_max = refl;
  }

  pub current-add_node : current (add_node snap h).1 (h.next_node_id + 1) ≡ some snap
  unfolding add_node put_snapshot made_registry made_id made
  current-add_node = view-made_self

-- The same of a node that joins two children, which is also filed under them.
module _ {h : Heap} (v : Valid h) (left right : ℕ) (l r : Snapshot)
    (left_content : content h left ≡ some l) (right_content : content h right ≡ some r) where
  joint : Snapshot
  joint = create_internal_snapshot left right l r

  Joined-made :
      (i j x : ℕ)
      → (if (i == left) && (j == right)
          then some (h.next_node_id + 1)
          else h.internal_nodes_by_children i j)
        ≡ some x
      → Joined (add_internal left right joint h).1 i j x
  unfolding add_internal add_node put_snapshot made_registry made_id made joint
  Joined-made i j x e = elim (Bool-cases ((i == left) && (j == right))) [
    | inl q ↦
        let i_left : i ≡ left = ground arith in
        let j_right : j ≡ right = ground arith in
        let x_new : h.next_node_id + 1 ≡ x = cc (rw q at e) in
        record {
          left_snapshot = l;
          right_snapshot = r;
          left_content = rw i_left (content-made v joint left l left_content);
          right_content = rw j_right (content-made v joint right r right_content);
          joint = rw (← x_new, i_left, j_right) (content-made_self v joint);
        }
    | inr q ↦
        let old = v.joined i j x (rw q at e) in
        record {
          left_snapshot = old.left_snapshot;
          right_snapshot = old.right_snapshot;
          left_content = content-made v joint i _ old.left_content;
          right_content = content-made v joint j _ old.right_content;
          joint = content-made v joint x _ old.joint;
        }
  ]

  pub add_internal-Valid :
      Valid (add_internal left right (create_internal_snapshot left right l r) h).1
  unfolding add_internal add_node put_snapshot made_registry made_id made joint
  add_internal-Valid = record {
    fresh = fresh-made v joint;
    uniform = uniform-made v joint;
    joined = Joined-made;
  }

  pub add_internal-Grows :
      Grows h (add_internal left right (create_internal_snapshot left right l r) h).1
  unfolding add_internal add_node put_snapshot made_registry made_id made joint
  add_internal-Grows = record {
    views = view-made v joint;
    contents = content-made v joint;
    same_forks = refl;
    same_fork = refl;
    same_revision = refl;
    same_max = refl;
  }

  pub current-add_internal :
      current
        (add_internal left right (create_internal_snapshot left right l r) h).1
        (h.next_node_id + 1)
      ≡ some (create_internal_snapshot left right l r)
  unfolding add_internal add_node put_snapshot made_registry made_id made joint
  current-add_internal = view-made_self v joint
