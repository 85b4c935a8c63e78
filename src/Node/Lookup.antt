-- ===== src/Node/Lookup.antt =====
-- A lookup that finds a snapshot finds one at a later revision too, in a fork that starts there,
-- and when forks are added or reach further.
use garland.Base.{
  ℕ, zero, suc, ◌≤◌, ◌<◌, or-true, ◌≡◌, ◌≢◌, sym, ◌∙◌, Bool, true, false, ◌||◌, ◌==◌, Option, none,
  some, [], ◌∷◌, arith, Option-cases, Bool-cases, inl, inr, ne→==,
}
use garland.Node.{ForkInfo, Node, exact, highest, snapshot_from, snapshot_at}
use garland.Node.Versions.{
  History, at_version, is_found, has_below, is_found-highest, is_found-snapshot_at,
}

abbrev Forks : Type 0
Forks = ℕ → Option ForkInfo

-- A fork that starts where another does.
pub record SameStart (forks : Forks) (f : ℕ) (old : ForkInfo) : Type 0 where
  pub info : ForkInfo
  pub exists : forks f ≡ some info
  pub same_fork : info.parent_fork ≡ old.parent_fork
  pub same_revision : info.parent_revision ≡ old.parent_revision

-- All forks are still there, and start where they did.
abbrev pub Extends : Forks → Forks → Type 0
Extends forks forks' = (f : ℕ) (info : ForkInfo) → forks f ≡ some info → SameStart forks' f info

exact-has_below :
    (f r r' : ℕ) (h : History)
    → r ≤ r'
    → is_found (exact (at_version f r) h) ≡ true
    → has_below f r' h ≡ true
unfolding exact has_below
exact-has_below f r r' [] le e = cc
exact-has_below f r r' ((k, s) ∷ h) le e = ground (arith, exact-has_below f r r' h)

has_below_mono :
    (f r r' : ℕ) (h : History) → r ≤ r' → has_below f r h ≡ true → has_below f r' h ≡ true
unfolding has_below
has_below_mono f r r' [] le e = cc
has_below_mono f r r' ((k, s) ∷ h) le e = ground (arith, has_below_mono f r r' h)

-- The snapshots that a lookup takes from the fork itself.
local : ℕ → ℕ → History → Bool
local f r h = is_found (exact (at_version f r) h) || has_below f r h

-- A lookup finds a snapshot in the fork, or goes to its parent.
snapshot_from-local :
    (forks : Forks) (h : History) (fuel f r : ℕ)
    → local f r h ≡ true
    → is_found (snapshot_from forks h (suc fuel) f r) ≡ true
unfolding snapshot_from local
snapshot_from-local forks h fuel f r e = elim (Option-cases (exact (at_version f r) h)) [
  | inr (s, x) ↦ rw (x, snapshot_from)
  | inl x ↦ elim (Option-cases (highest f r h none)) [
    | inr (s, y) ↦ rw (x, snapshot_from, y)
    | inl y ↦ cc (is_found-highest f r h none, rw x at e, y)
  ]
]

snapshot_from-parent :
    (forks : Forks) (h : History) (fuel f r : ℕ) (info : ForkInfo)
    → local f r h ≡ false
    → forks f ≡ some info
    → (info.parent_fork == f) ≡ false
    → snapshot_from forks h (suc fuel) f r
      ≡ snapshot_from forks h fuel info.parent_fork info.parent_revision
unfolding snapshot_from local
snapshot_from-parent forks h fuel f r info e there up =
    elim (Option-cases (exact (at_version f r) h)) [
      | inr (s, x) ↦ cc (rw x at e)
      | inl x ↦ elim (Option-cases (highest f r h none)) [
        | inr (s, y) ↦ cc (is_found-highest f r h none, rw x at e, y)
        | inl y ↦ rw (x, snapshot_from, y, there, up)
      ]
    ]

-- What a lookup that finds nothing in the fork itself went through.
record Climbs (forks : Forks) (h : History) (fuel f : ℕ) : Type 0 where
  info : ForkInfo
  exists : forks f ≡ some info
  other : (info.parent_fork == f) ≡ false
  found : is_found (snapshot_from forks h fuel info.parent_fork info.parent_revision) ≡ true

climbs :
    (forks : Forks) (h : History) (fuel f r : ℕ)
    → local f r h ≡ false
    → is_found (snapshot_from forks h (suc fuel) f r) ≡ true
    → Climbs forks h fuel f
unfolding snapshot_from local
climbs forks h fuel f r e found = elim (Option-cases (exact (at_version f r) h)) [
  | inr (s, x) ↦ absurd (cc (rw x at e))
  | inl x ↦ elim (Option-cases (highest f r h none)) [
    | inr (s, y) ↦ absurd (cc (is_found-highest f r h none, rw x at e, y))
    | inl y ↦ elim (Option-cases (forks f)) [
      | inl n ↦ absurd (cc (rw (x, snapshot_from, y, n) at found))
      | inr (info, n) ↦ elim (Bool-cases (info.parent_fork == f)) [
        | inl own ↦ absurd (cc (rw (x, snapshot_from, y, n, own) at found))
        | inr up ↦ record {
          info = info;
          exists = n;
          other = up;
          found = rw (x, snapshot_from, y, n, up) at found;
        }
      ]
    ]
  ]
]

local-later : (f r r' : ℕ) (h : History) → r ≤ r' → local f r h ≡ true → local f r' h ≡ true
unfolding local
local-later f r r' h le e = elim (Bool-cases (is_found (exact (at_version f r) h))) [
  | inl x ↦ rw (exact-has_below f r r' h le x) (or-true _)
  | inr x ↦ rw (has_below_mono f r r' h le (rw x at e)) (or-true _)
]

snapshot_from-later :
    (forks forks' : Forks) (h : History) (fuel fuel' f r r' : ℕ)
    → Extends forks forks'
    → fuel ≤ fuel'
    → r ≤ r'
    → is_found (snapshot_from forks h fuel f r) ≡ true
    → is_found (snapshot_from forks' h fuel' f r') ≡ true
unfolding snapshot_from
snapshot_from-later forks forks' h zero fuel' f r r' more enough le e = absurd cc
snapshot_from-later forks forks' h (suc fuel) zero f r r' more enough le e = absurd (omega arith)
snapshot_from-later forks forks' h (suc fuel) (suc fuel') f r r' more enough le e =
    elim (Bool-cases (local f r h)) [
      | inl here ↦ snapshot_from-local forks' h fuel' f r' (local-later f r r' h le here)
      | inr away ↦ elim (Bool-cases (local f r' h)) [
        | inl here ↦ snapshot_from-local forks' h fuel' f r' here
        | inr away' ↦
            let c = climbs forks h fuel f r away e in
            let new = more f c.info c.exists in
            let up : (new.info.parent_fork == f) ≡ false = rw new.same_fork c.other in
            rw
              (
                snapshot_from-parent forks' h fuel' f r' new.info away' new.exists up,
                new.same_fork,
                new.same_revision,
              )
              (snapshot_from-later forks forks' h fuel fuel' c.info.parent_fork
                c.info.parent_revision c.info.parent_revision more (omega arith) (omega arith)
                c.found)
      ]
    ]

snapshot_from-branch :
    (forks forks' : Forks) (h : History) (fuel fuel' f r fork r' : ℕ) (info : ForkInfo)
    → Extends forks forks'
    → fuel ≤ fuel'
    → forks' fork ≡ some info
    → info.parent_fork ≡ f
    → info.parent_revision ≡ r
    → f ≢ fork
    → is_found (snapshot_from forks h fuel f r) ≡ true
    → is_found (snapshot_from forks' h (suc fuel') fork r') ≡ true
snapshot_from-branch forks forks' h fuel fuel' f r fork r' info more enough there p q ne e =
    elim (Bool-cases (local fork r' h)) [
      | inl here ↦ snapshot_from-local forks' h fuel' fork r' here
      | inr away ↦
          rw
            (
              snapshot_from-parent forks' h fuel' fork r' info away there (rw p (ne→== f fork ne)),
              p,
              q,
            )
            (snapshot_from-later forks forks' h fuel fuel' f r r more enough (omega arith) e)
    ]

module _ (forks forks' : Forks) (n : Node) (f r : ℕ) (more : Extends forks forks')
    (e : is_found (snapshot_at forks n f r) ≡ true) where
  -- A node with a snapshot has one at every later revision of the fork.
  pub is_found-later : (r' : ℕ) → r ≤ r' → is_found (snapshot_at forks' n f r') ≡ true
  is_found-later r' le =
      is_found-snapshot_at forks' n f r'
      ∙ snapshot_from-later forks forks' n.history (suc f) (suc f) f r r' more (omega arith) le
          (sym (is_found-snapshot_at forks n f r) ∙ e)

  -- It has one at every revision of a fork that starts at that one.
  pub is_found-branch :
      (fork r' : ℕ) (info : ForkInfo)
      → f < fork
      → forks' fork ≡ some info
      → info.parent_fork ≡ f
      → info.parent_revision ≡ r
      → is_found (snapshot_at forks' n fork r') ≡ true
  is_found-branch fork r' info lt there p q =
      is_found-snapshot_at forks' n fork r'
      ∙ snapshot_from-branch forks forks' n.history (suc f) fork f r fork r' info more (omega arith)
          there p q (λ same. absurd (omega (arith, same)))
          (sym (is_found-snapshot_at forks n f r) ∙ e)
