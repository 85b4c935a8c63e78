-- ===== src/Rope/Balance.antt =====
-- Heights and rotations (tree.go). `fuel` bounds the depth of the descent.
pub mod Text
use garland.Base.{
  ℕ, zero, suc, ◌+◌, max, Bool, true, false, ltb, ◌==◌, if◌then◌else◌, Option, none, some,
}
use garland.Result.{Result, ok, err, panic, out_of_fuel}
use garland.Node.{Snapshot}
use garland.Heap.{Heap, M, ◌>>=◌, return, fail, current, concatenate}
use garland.Rope.Delete.{deref}

-- getHeight. A node without a snapshot has height 1, a missing node 0.
unfoldable pub get_height : Heap → ℕ → ℕ → ℕ
get_height h zero id = 0
get_height h (suc fuel) id = elim (id == 0) [
  | true ↦ 0
  | false ↦ elim (h.node_registry id) [
    | none ↦ 0
    | some _ ↦ elim (current h id) [
      | none ↦ 1
      | some s ↦ elim s.is_leaf [
        | true ↦ 1
        | false ↦ suc (max (get_height h fuel s.left_id) (get_height h fuel s.right_id))
      ]
    ]
  ]
]

-- `id, _ := g.concatenate(…)`: an error is dropped, and leaves 0.
abbrev pub or_zero : Result ℕ → Heap → Result ℕ × Heap
or_zero (ok id) h = (ok id, h)
or_zero (err _) h = (ok 0, h)

unfoldable pub concatenate_or_zero : ℕ → ℕ → M ℕ
concatenate_or_zero left right h = or_zero (concatenate left right h).0 (concatenate left right h).1

-- rotateRight
unfoldable pub rotate_right : ℕ → M ℕ
unfolding concatenate_or_zero
rotate_right id = deref id >>= λ s. elim s.is_leaf [
  | true ↦ return id
  | false ↦ deref s.left_id >>= λ l. elim l.is_leaf [
    | true ↦ return id
    | false ↦ concatenate_or_zero l.right_id s.right_id >>= λ new_right.
        concatenate_or_zero l.left_id new_right
  ]
]

-- rotateLeft
unfoldable pub rotate_left : ℕ → M ℕ
unfolding concatenate_or_zero
rotate_left id = deref id >>= λ s. elim s.is_leaf [
  | true ↦ return id
  | false ↦ deref s.right_id >>= λ r. elim r.is_leaf [
    | true ↦ return id
    | false ↦ concatenate_or_zero s.left_id r.left_id >>= λ new_left.
        concatenate_or_zero new_left r.right_id
  ]
]

-- rebalanceIfNeeded: rotate if one side is more than two levels higher.
unfoldable pub rebalance_if_needed : ℕ → ℕ → M ℕ
unfolding rotate_right rotate_left get_height
rebalance_if_needed fuel id h = elim (current h id) [
  | none ↦ (ok id, h)
  | some s ↦ elim s.is_leaf [
    | true ↦ (ok id, h)
    | false ↦
        let left : ℕ = get_height h fuel s.left_id in
        let right : ℕ = get_height h fuel s.right_id in
        if ltb (right + 2) left
        then rotate_right id h
        else if ltb (left + 2) right
        then rotate_left id h
        else (ok id, h)
  ]
]
