-- ===== src/Node/Versions.antt =====
-- Which snapshot a version sees: snapshotAtWithKey, and how setSnapshot changes it.
use garland.Base.{
  ℕ, zero, suc, ◌≡◌, refl, sym, subst, ◌∙◌, Bool, true, false, ◌&&◌, ◌||◌, List, [], ◌∷◌, ◌==◌,
  arith, ltb, leb, Option, none, some, inl, inr, Option-cases, Bool-cases,
}
use garland.Node.{
  ForkRevision, ForkInfo, Snapshot, Node, key_eq, exact, take_higher, highest, snapshot_from,
  snapshot_at_with_key, snapshot_at, set_entry, set_snapshot,
}

abbrev pub History : Type 0
History = List (ForkRevision × Snapshot)

abbrev pub at_version : ℕ → ℕ → ForkRevision
at_version f r = record { fork = f; revision = r }

-- Every snapshot of a history.
abbrev pub AllSnapshots : (Snapshot → Type 0) → History → Type 0
AllSnapshots P [] = Unit
AllSnapshots P ((k, s) ∷ h) = P s × AllSnapshots P h

abbrev OptionAll : (Snapshot → Type 0) → Option (ForkRevision × Snapshot) → Type 0
OptionAll P none = Unit
OptionAll P (some (k, s)) = P s

-- Whatever holds of every snapshot of a history holds of the one that a lookup finds.
module _ (P : Snapshot → Type 0) where
  exact-All :
      (key : ForkRevision) (h : History) (s : Snapshot)
      → AllSnapshots P h
      → exact key h ≡ some s
      → P s
  unfolding exact
  exact-All key [] s a e = cc
  exact-All key ((k, t) ∷ h) s a e = elim (Bool-cases (key_eq k key)) [
    | inl same ↦ subst P (cc (rw same at e)) a.0
    | inr other ↦ exact-All key h s a.1 (rw other at e)
  ]

  take_higher-All :
      (k : ForkRevision) (t : Snapshot) (best : Option (ForkRevision × Snapshot))
      → P t
      → OptionAll P best
      → OptionAll P (take_higher k t best)
  unfolding take_higher
  take_higher-All k t none p b = p
  take_higher-All k t (some (bk, bs)) p b = elim (Bool-cases (ltb bk.revision k.revision)) [
    | inl e ↦ rw e p
    | inr e ↦ rw e b
  ]

  highest-All :
      (f r : ℕ) (h : History) (best : Option (ForkRevision × Snapshot))
      → AllSnapshots P h
      → OptionAll P best
      → OptionAll P (highest f r h best)
  unfolding highest
  highest-All f r [] best a b = b
  highest-All f r ((k, t) ∷ h) best a b = elim (Bool-cases ((k.fork == f) && leb k.revision r)) [
    | inl e ↦ rw e (highest-All f r h _ a.1 (take_higher-All k t best a.0 b))
    | inr e ↦ rw e (highest-All f r h best a.1 b)
  ]

  pub set_entry-All :
      (key : ForkRevision) (s : Snapshot) (h : History)
      → P s
      → AllSnapshots P h
      → AllSnapshots P (set_entry key s h)
  unfolding set_entry
  set_entry-All key s [] p a = (p, tt)
  set_entry-All key s ((k, t) ∷ h) p a = elim (Bool-cases (key_eq k key)) [
    | inl e ↦ rw e (p, a.1)
    | inr e ↦ rw e (a.0, set_entry-All key s h p a.1)
  ]

  pub snapshot_from-All :
      (forks : ℕ → Option ForkInfo) (h : History) (fuel f r : ℕ)
      → AllSnapshots P h
      → OptionAll P (snapshot_from forks h fuel f r)
  unfolding snapshot_from
  snapshot_from-All forks h zero f r a = tt
  snapshot_from-All forks h (suc fuel) f r a = elim (Option-cases (exact (at_version f r) h)) [
    | inr (s, e) ↦ rw (e, snapshot_from) (exact-All (at_version f r) h s a e)
    | inl e ↦ elim (Option-cases (highest f r h none)) [
      | inr (x, e') ↦ rw (e, snapshot_from, e') (rw e' at (highest-All f r h none a tt))
      | inl e' ↦ elim (Option-cases (forks f)) [
        | inl n ↦ rw (e, snapshot_from, e', n) tt
        | inr (info, n) ↦ elim (Bool-cases (info.parent_fork == f)) [
          | inl own ↦ rw (e, snapshot_from, e', n, own) tt
          | inr up ↦
              rw (e, snapshot_from, e', n, up)
                (snapshot_from-All forks h fuel info.parent_fork info.parent_revision a)
        ]
      ]
    ]
  ]

abbrev pub is_found {ℓ} : {A : Type ℓ} → Option A → Bool
is_found none = false
is_found (some _) = true

-- A history has an entry that a lookup at (fork, rev) may take.
unfoldable pub has_below : ℕ → ℕ → History → Bool
has_below f r [] = false
has_below f r ((k, s) ∷ h) = ((k.fork == f) && leb k.revision r) || has_below f r h

is_found-take_higher :
    (k : ForkRevision) (s : Snapshot) (best : Option (ForkRevision × Snapshot))
    → is_found (take_higher k s best) ≡ true
unfolding take_higher
is_found-take_higher k s none = refl
is_found-take_higher k s (some (bk, bs)) = ground arith

pub is_found-highest :
    (f r : ℕ) (h : History) (best : Option (ForkRevision × Snapshot))
    → is_found (highest f r h best) ≡ (is_found best || has_below f r h)
unfolding highest has_below
is_found-highest f r [] best = ground arith
is_found-highest f r ((k, s) ∷ h) best = elim (Bool-cases ((k.fork == f) && leb k.revision r)) [
  | inl e ↦
      rw (e, is_found-highest f r h (take_higher k s best), is_found-take_higher k s best)
        (ground arith)
  | inr e ↦ rw (e, is_found-highest f r h best)
]

-- Filing one more snapshot hides none from a lookup.
module _ (key : ForkRevision) (s : Snapshot) where
  exact-set_entry :
      (k : ForkRevision) (h : History)
      → is_found (exact k h) ≡ true
      → is_found (exact k (set_entry key s h)) ≡ true
  unfolding exact set_entry
  exact-set_entry k [] e = cc
  exact-set_entry k ((j, t) ∷ h) e = ground (arith, exact-set_entry k h)

  exact-set_entry_self : (h : History) → exact key (set_entry key s h) ≡ some s
  unfolding exact set_entry
  exact-set_entry_self [] = ground arith
  exact-set_entry_self ((j, t) ∷ h) = ground (arith, exact-set_entry_self h)

  has_below-set_entry :
      (f r : ℕ) (h : History) → has_below f r h ≡ true → has_below f r (set_entry key s h) ≡ true
  unfolding has_below set_entry
  has_below-set_entry f r [] e = cc
  has_below-set_entry f r ((j, t) ∷ h) e = ground (arith, has_below-set_entry f r h)

  highest-set_entry :
      (f r : ℕ) (h : History)
      → is_found (highest f r h none) ≡ true
      → is_found (highest f r (set_entry key s h) none) ≡ true
  highest-set_entry f r h e =
      is_found-highest f r (set_entry key s h) none
      ∙ has_below-set_entry f r h (rw (is_found-highest f r h none) at e)

  pub snapshot_from-set_entry :
      (forks : ℕ → Option ForkInfo) (h : History) (fuel f r : ℕ)
      → is_found (snapshot_from forks h fuel f r) ≡ true
      → is_found (snapshot_from forks (set_entry key s h) fuel f r) ≡ true
  unfolding snapshot_from
  snapshot_from-set_entry forks h zero f r e = cc
  snapshot_from-set_entry forks h (suc fuel) f r e =
      elim (Option-cases (exact (at_version f r) (set_entry key s h))) [
        | inr (t, x) ↦ rw (x, snapshot_from)
        | inl x ↦ elim (Option-cases (exact (at_version f r) h)) [
          | inr (t, y) ↦ cc (rw x at (exact-set_entry (at_version f r) h (rw y)))
          | inl y ↦ elim (Option-cases (highest f r (set_entry key s h) none)) [
            | inr (t, z) ↦ rw (x, snapshot_from, z)
            | inl z ↦ elim (Option-cases (highest f r h none)) [
              | inr (t, w) ↦ cc (rw z at (highest-set_entry f r h (rw w)))
              | inl w ↦ elim (Option-cases (forks f)) [
                | inl n ↦ cc (rw (y, snapshot_from, w, n) at e)
                | inr (info, n) ↦ elim (Bool-cases (info.parent_fork == f)) [
                  | inl own ↦ cc (rw (y, snapshot_from, w, n, own) at e)
                  | inr up ↦
                      rw (x, snapshot_from, z, n, up)
                        (snapshot_from-set_entry forks h fuel info.parent_fork info.parent_revision
                          (rw (y, snapshot_from, w, n, up) at e))
                ]
              ]
            ]
          ]
        ]
      ]

  -- A lookup at the version just filed finds the snapshot.
  pub snapshot_from-set_entry_self :
      (forks : ℕ → Option ForkInfo) (h : History) (fuel : ℕ)
      → snapshot_from forks (set_entry key s h) (suc fuel) key.fork key.revision ≡ some (key, s)
  unfolding snapshot_from
  snapshot_from-set_entry_self forks h fuel = rw (exact-set_entry_self h, snapshot_from)

-- The same of snapshotAt and setSnapshot.
pub snapshot_at-All :
    (P : Snapshot → Type 0) (forks : ℕ → Option ForkInfo) (n : Node) (f r : ℕ) (s : Snapshot)
    → AllSnapshots P n.history
    → snapshot_at forks n f r ≡ some s
    → P s
unfolding snapshot_at snapshot_at_with_key
snapshot_at-All P forks n f r s a e =
    elim (Option-cases (snapshot_from forks n.history (suc f) f r)) [
      | inl x ↦ cc (rw (x, snapshot_at) at e)
      | inr (y, x) ↦
          subst P (cc (rw (x, snapshot_at) at e))
            (rw x at (snapshot_from-All P forks n.history (suc f) f r a))
    ]

pub is_found-snapshot_at :
    (forks : ℕ → Option ForkInfo) (n : Node) (f r : ℕ)
    → is_found (snapshot_at forks n f r) ≡ is_found (snapshot_from forks n.history (suc f) f r)
unfolding snapshot_at snapshot_at_with_key
is_found-snapshot_at forks n f r = elim (Option-cases (snapshot_from forks n.history (suc f) f r)) [
  | inl x ↦ rw (x, snapshot_at)
  | inr (y, x) ↦ rw (x, snapshot_at)
]

pub snapshot_at-set_snapshot :
    (forks : ℕ → Option ForkInfo) (n : Node) (f' r' : ℕ) (s : Snapshot) (f r : ℕ)
    → is_found (snapshot_at forks n f r) ≡ true
    → is_found (snapshot_at forks (set_snapshot f' r' s n) f r) ≡ true
unfolding set_snapshot
snapshot_at-set_snapshot forks n f' r' s f r e =
    is_found-snapshot_at forks (set_snapshot f' r' s n) f r
    ∙ snapshot_from-set_entry (at_version f' r') s forks n.history (suc f) f r
        (sym (is_found-snapshot_at forks n f r) ∙ e)

-- A version sees what was just filed under it.
pub snapshot_at-set_snapshot_self :
    (forks : ℕ → Option ForkInfo) (n : Node) (f r : ℕ) (s : Snapshot)
    → snapshot_at forks (set_snapshot f r s n) f r ≡ some s
unfolding snapshot_at snapshot_at_with_key set_snapshot
snapshot_at-set_snapshot_self forks n f r s =
    rw (snapshot_from-set_entry_self (at_version f r) s forks n.history f, snapshot_at)
