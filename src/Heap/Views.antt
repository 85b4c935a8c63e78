-- ===== src/Heap/Views.antt =====
-- What a step on the registry leaves of every node's view at every version.
use garland.Base.{
  ℕ, ◌<◌, ◌≡◌, refl, ap, sym, ◌∙◌, subst, true, [], ◌∷◌, ◌==◌, Option, none, some, inl, inr,
  Option-cases, Bool-cases, ==→eq, ==→ne, ◌≢◌, ne→==, ==_refl,
}
use garland.Node.{
  ForkRevision, Snapshot, Node, key_eq, snapshot_at, set_entry, set_snapshot,
  create_internal_snapshot,
}
use garland.Node.Versions.{
  History, AllSnapshots, snapshot_at-All, set_entry-All, snapshot_at-set_snapshot, is_found,
  snapshot_at-set_snapshot_self,
}
use garland.Heap.{Heap, view_of, view, current, put_snapshot, update}

-- The snapshot that a node was made with.
abbrev pub first_snapshot : History → Option Snapshot
first_snapshot [] = none
first_snapshot ((k, s) ∷ h) = some s

abbrev pub content_of : Option Node → Option Snapshot
content_of none = none
content_of (some n) = first_snapshot n.history

abbrev pub content : Heap → ℕ → Option Snapshot
content h id = content_of (h.node_registry id)

-- The registry of joined pairs knows the snapshots of the pair.
pub record Joined (h : Heap) (left right id : ℕ) : Type 0 where
  pub left_snapshot : Snapshot
  pub right_snapshot : Snapshot
  pub left_content : content h left ≡ some left_snapshot
  pub right_content : content h right ≡ some right_snapshot
  pub joint : content h id ≡ some (create_internal_snapshot left right left_snapshot right_snapshot)

-- No node is numbered above the counter, a node has the same snapshot at all its versions, and a
-- node filed under two children joins them.
pub record Valid (h : Heap) : Type 0 where
  pub fresh : (id : ℕ) → h.next_node_id < id → h.node_registry id ≡ none
  pub uniform :
      (id : ℕ) (n : Node)
      → h.node_registry id ≡ some n
      → AllSnapshots (λ s. content h id ≡ some s) n.history
  pub joined :
      (left right id : ℕ)
      → h.internal_nodes_by_children left right ≡ some id
      → Joined h left right id

-- Nothing that a version could see before is lost or changed.
pub record Grows (h after : Heap) : Type 0 where
  pub views : (f r id : ℕ) (s : Snapshot) → view h f r id ≡ some s → view after f r id ≡ some s
  pub contents : (id : ℕ) (s : Snapshot) → content h id ≡ some s → content after id ≡ some s
  pub same_forks : after.forks ≡ h.forks
  pub same_fork : after.current_fork ≡ h.current_fork
  pub same_revision : after.current_revision ≡ h.current_revision
  pub same_max : after.max_leaf_size ≡ h.max_leaf_size

pub Grows-refl : (h : Heap) → Grows h h
Grows-refl h = record {
  views = λ f r id s e. e;
  contents = λ id s e. e;
  same_forks = refl;
  same_fork = refl;
  same_revision = refl;
  same_max = refl;
}

pub Grows-trans : {a b c : Heap} → Grows a b → Grows b c → Grows a c
Grows-trans p q = record {
  views = λ f r id s e. q.views f r id s (p.views f r id s e);
  contents = λ id s e. q.contents id s (p.contents id s e);
  same_forks = q.same_forks ∙ p.same_forks;
  same_fork = q.same_fork ∙ p.same_fork;
  same_revision = q.same_revision ∙ p.same_revision;
  same_max = q.same_max ∙ p.same_max;
}

-- What any version sees of a node is the snapshot that the node was made with.
pub content-view :
    {h : Heap}
    → Valid h
    → (f r id : ℕ) (s : Snapshot) → view h f r id ≡ some s
    → content h id ≡ some s
content-view {h} v f r id s e = elim (Option-cases (h.node_registry id)) [
  | inl n ↦ cc (rw (n, view_of) at e)
  | inr (n, m) ↦
      snapshot_at-All (λ s. content h id ≡ some s) h.forks n f r s (v.uniform id n m)
        (rw (m, view_of) at e)
]

pub update_self {ℓ} : {A : Type ℓ} (f : ℕ → A) (k : ℕ) (v : A) → update f k v k ≡ v
update_self f k v = rw (==_refl k)

pub update_ne {ℓ} : {A : Type ℓ} (f : ℕ → A) (k : ℕ) (v : A) (j : ℕ) → j ≢ k → update f k v j ≡ f j
update_ne f k v j n = rw (ne→== j k n)

first_snapshot-set_entry :
    (key : ForkRevision) (snap : Snapshot) (es : History)
    → first_snapshot es ≡ some snap
    → first_snapshot (set_entry key snap es) ≡ some snap
unfolding set_entry
first_snapshot-set_entry key snap [] e = refl
first_snapshot-set_entry key snap ((k, s) ∷ es) e = elim (Bool-cases (key_eq k key)) [
  | inl same ↦ rw same
  | inr other ↦ rw other e
]

-- Filing a node's own snapshot under the current version.
module _ {h : Heap} (v : Valid h) (id : ℕ) (n : Node) (snap : Snapshot)
    (here : h.node_registry id ≡ some n) (own : content h id ≡ some snap) where
  filed : Node
  filed = set_snapshot h.current_fork h.current_revision snap n

  registry_self : (put_snapshot id n snap h).node_registry id ≡ some filed
  unfolding put_snapshot filed
  registry_self = update_self h.node_registry id _

  registry_ne : (j : ℕ) → j ≢ id → (put_snapshot id n snap h).node_registry j ≡ h.node_registry j
  unfolding put_snapshot
  registry_ne j ne = update_ne h.node_registry id _ j ne

  content-put_snapshot : (j : ℕ) → content (put_snapshot id n snap h) j ≡ content h j
  unfolding filed set_snapshot
  content-put_snapshot j = elim (Bool-cases (j == id)) [
    | inl e ↦
        rw (==→eq j id e, registry_self, own)
          (first_snapshot-set_entry _ snap n.history (rw here at own))
    | inr e ↦ rw (registry_ne j (==→ne j id e))
  ]

  filed-AllSnapshots : AllSnapshots (λ s. content h id ≡ some s) filed.history
  unfolding filed set_snapshot
  filed-AllSnapshots =
      set_entry-All (λ s. content h id ≡ some s) _ snap n.history own (v.uniform id n here)

  uniform-put_snapshot :
      (j : ℕ) (m : Node)
      → (put_snapshot id n snap h).node_registry j ≡ some m
      → AllSnapshots (λ s. content h j ≡ some s) m.history
  uniform-put_snapshot j m e = elim (Bool-cases (j == id)) [
    | inl q ↦
        subst (λ k. AllSnapshots (λ s. content h k ≡ some s) m.history) (sym (==→eq j id q))
          (subst (λ (x : Node). AllSnapshots (λ s. content h id ≡ some s) x.history)
            (cc (registry_self, rw (==→eq j id q) at e)) filed-AllSnapshots)
    | inr q ↦ v.uniform j m (sym (registry_ne j (==→ne j id q)) ∙ e)
  ]

  pub put_snapshot-Valid : Valid (put_snapshot id n snap h)
  unfolding put_snapshot
  put_snapshot-Valid = record {
    fresh = λ j above. elim (Bool-cases (j == id)) [
      | inl q ↦ cc (here, rw (==→eq j id q) at (v.fresh j above))
      | inr q ↦ registry_ne j (==→ne j id q) ∙ v.fresh j above
    ];
    uniform = λ j m e.
        subst (λ c. AllSnapshots (λ s. c ≡ some s) m.history) (sym (content-put_snapshot j))
          (uniform-put_snapshot j m e);
    joined = λ l r x e.
        let old = v.joined l r x e in
        record {
          left_snapshot = old.left_snapshot;
          right_snapshot = old.right_snapshot;
          left_content = content-put_snapshot l ∙ old.left_content;
          right_content = content-put_snapshot r ∙ old.right_content;
          joint = content-put_snapshot x ∙ old.joint;
        };
  }

  view-put_snapshot :
      (f r : ℕ) (s : Snapshot) → view h f r id ≡ some s → snapshot_at h.forks filed f r ≡ some s
  unfolding put_snapshot filed
  view-put_snapshot f r s e =
      let seen : snapshot_at h.forks n f r ≡ some s = rw here at e in
      let found : is_found (snapshot_at h.forks filed f r) ≡ true =
        snapshot_at-set_snapshot h.forks n _ _ snap f r (rw seen) in
      elim (Option-cases (snapshot_at h.forks filed f r)) [
        | inl x ↦ cc (rw x at found)
        | inr (t, x) ↦
            let own' : content h id ≡ some t =
              snapshot_at-All (λ s. content h id ≡ some s) h.forks filed f r t filed-AllSnapshots
                x in
            cc (x, own', content-view v f r id s e)
      ]

  pub put_snapshot-Grows : Grows h (put_snapshot id n snap h)
  unfolding put_snapshot
  put_snapshot-Grows = record {
    views = λ f r j s e. elim (Bool-cases (j == id)) [
      | inl q ↦ rw (==→eq j id q, registry_self) (view-put_snapshot f r s (rw (==→eq j id q) at e))
      | inr q ↦ rw (registry_ne j (==→ne j id q)) e
    ];
    contents = λ j s e. content-put_snapshot j ∙ e;
    same_forks = refl;
    same_fork = refl;
    same_revision = refl;
    same_max = refl;
  }

  pub current-put_snapshot : current (put_snapshot id n snap h) id ≡ some snap
  unfolding put_snapshot filed
  current-put_snapshot =
      ap (view_of h.forks h.current_fork h.current_revision) registry_self
      ∙ snapshot_at-set_snapshot_self h.forks n h.current_fork h.current_revision snap
