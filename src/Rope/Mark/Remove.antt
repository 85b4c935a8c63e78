-- ===== src/Rope/Mark/Remove.antt =====
-- removeDecorationDirect (garland.go): findDecorationWithHint, findLeafAtOffset and
-- findDecorationByKeyInternal. `cache` gives the last known offset of a key in the cache of
-- decorations; the key that the code queues for the cache is left out. `fuel` bounds the depth of
-- the descents.
use garland.Base.{
  ℕ, zero, suc, ◌+◌, Bool, true, false, List, [], ◌∷◌, ltb, if◌then◌else◌, min, Option, none, some,
}
use garland.Result.{Result, ok, err, panic, out_of_fuel}
use garland.Address.{Decoration}
use garland.Node.{Snapshot}
use garland.Heap.{Heap, M, ◌>>=◌, return, current, add_leaf_quietly}
use garland.Rope.Mark.{same_key, has_key, without_keys, rebuild_from_leaf}

-- The snapshot of a node, if it has one at this version; a node that is not there is a panic.
abbrev snapshot_of : Heap → ℕ → Result (Option Snapshot)
snapshot_of h id = elim (h.node_registry id) [ none ↦ err panic | some n ↦ ok (current h id) ]

-- findLeafAtOffset from a node with its snapshot and its start: the leaf's number and its start.
unfoldable pub find_leaf_at_offset : Heap → ℕ → ℕ → Snapshot → ℕ → ℕ → Result (Option (ℕ × ℕ))
find_leaf_at_offset h zero id snap offset start = err out_of_fuel
find_leaf_at_offset h (suc fuel) id snap offset start = elim snap.is_leaf [
  | true ↦ ok (some (id, start))
  | false ↦ elim (snapshot_of h snap.left_id) [
    | err e ↦ err e
    | ok l ↦ elim l [
      | none ↦ ok none
      | some left ↦ elim (ltb offset (start + left.byte_count)) [
        | true ↦ find_leaf_at_offset h fuel snap.left_id left offset start
        | false ↦ elim (snapshot_of h snap.right_id) [
          | err e ↦ err e
          | ok r ↦ elim r [
            | none ↦ ok none
            | some right ↦
                find_leaf_at_offset h fuel snap.right_id right offset (start + left.byte_count)
          ]
        ]
      ]
    ]
  ]
]

-- The position of a key in a leaf.
unfoldable pub position_in : List ℕ → List Decoration → Option ℕ
unfolding same_key
position_in key [] = none
position_in key (d ∷ ds) = if same_key d.key key then some d.position else position_in key ds

abbrev from_start : ℕ → Option ℕ → Option ℕ
from_start start none = none
from_start start (some p) = some (start + p)

-- findDecorationByKeyInternal. The code reads the size of the left child before it goes right.
unfoldable pub find_decoration_by_key : Heap → ℕ → Snapshot → List ℕ → ℕ → Result (Option ℕ)
unfolding position_in
find_decoration_by_key h zero snap key offset = err out_of_fuel
find_decoration_by_key h (suc fuel) snap key offset = elim snap.is_leaf [
  | true ↦ ok (from_start offset (position_in key snap.decorations))
  | false ↦ elim (current h snap.left_id) [
    | none ↦ err panic
    | some left ↦ elim (find_decoration_by_key h fuel left key offset) [
      | err e ↦ err e
      | ok found ↦ elim found [
        | some p ↦ ok (some p)
        | none ↦ elim (snapshot_of h snap.right_id) [
          | err e ↦ err e
          | ok r ↦ elim r [
            | none ↦ ok none
            | some right ↦ find_decoration_by_key h fuel right key (offset + left.byte_count)
          ]
        ]
      ]
    ]
  ]
]

-- What findDecorationWithHint finds: the leaf and where it starts. A key in no leaf gives `none`;
-- for a key that the search found in a leaf that cannot be reached, the leaf's number is 0.
abbrev pub FoundLeaf : Type 0
FoundLeaf = Option (ℕ × ℕ)

-- The search in the whole tree, and the leaf at the position that it gives. `lost` is the answer
-- when there is no leaf there.
unfoldable pub find_in_tree : Heap → ℕ → ℕ → Snapshot → List ℕ → FoundLeaf → Result FoundLeaf
unfolding find_decoration_by_key find_leaf_at_offset
find_in_tree h fuel root snap key lost = elim (find_decoration_by_key h fuel snap key 0) [
  | err e ↦ err e
  | ok found ↦ elim found [
    | none ↦ ok none
    | some pos ↦ elim (find_leaf_at_offset h fuel root snap pos 0) [
      | err e ↦ err e
      | ok leaf ↦ elim leaf [ none ↦ ok lost | some l ↦ ok (some l) ]
    ]
  ]
]

abbrev marks_of : Option Snapshot → List Decoration
marks_of none = []
marks_of (some s) = s.decorations

-- findDecorationWithHint
unfoldable pub find_decoration_with_hint : Heap → ℕ → ℕ → List ℕ → ℕ → Result FoundLeaf
unfolding find_in_tree
find_decoration_with_hint h fuel root key hint = elim (current h root) [
  | none ↦ ok none
  | some snap ↦ elim (find_leaf_at_offset h fuel root snap (min hint snap.byte_count) 0) [
    | err e ↦ err e
    | ok leaf ↦ elim leaf [
      | none ↦ find_in_tree h fuel root snap key none
      | some l ↦
          if has_key key (marks_of (current h l.0))
          then ok (some l)
          else find_in_tree h fuel root snap key (some (0, 0))
    ]
  ]
]

abbrev hint_of : Option ℕ → ℕ
hint_of none = 0
hint_of (some n) = n

-- removeDecorationDirect in the leaf that was found.
unfoldable pub remove_in_leaf : ℕ → ℕ → List ℕ → ℕ × ℕ → Option Snapshot → M (ℕ × Bool)
remove_in_leaf fuel root key leaf none = return (root, false)
remove_in_leaf fuel root key leaf (some snap) =
    if snap.is_leaf
    then (if has_key key snap.decorations
        then (add_leaf_quietly snap.content (without_keys (λ k. same_key k key) snap.decorations)
              snap.original_file_offset
            >>= λ new_leaf.
                rebuild_from_leaf fuel root leaf.1 new_leaf >>= λ new_root. return (new_root, true))
        else return (root, false))
    else return (root, false)

-- removeDecorationDirect: the root, and whether the key was there.
unfoldable pub remove_decoration_direct : (List ℕ → Option ℕ) → ℕ → ℕ → List ℕ → M (ℕ × Bool)
unfolding find_decoration_with_hint remove_in_leaf
remove_decoration_direct cache fuel root key =
    (λ h. (find_decoration_with_hint h fuel root key (hint_of (cache key)), h)) >>= λ found.
    elim found [
      | none ↦ return (root, false)
      | some leaf ↦ λ h. remove_in_leaf fuel root key leaf (current h leaf.0) h
    ]
