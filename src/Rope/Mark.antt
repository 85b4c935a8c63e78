-- ===== src/Rope/Mark.antt =====
-- Marks put into the tree and taken out of it (garland.go): addDecorationInternal,
-- rebuildFromLeafInternal and removeDecorationsInternal. `fuel` bounds the depth of the descent.
pub mod Found
pub mod Rebuild
pub mod Keys
pub mod Add
pub mod Remove
use garland.Base.{
  ℕ, zero, suc, ◌+◌, Bool, true, false, ◌&&◌, ◌||◌, not, List, [], ◌∷◌, ◌++◌, ltb, ◌==◌,
  if◌then◌else◌,
}
use garland.Result.{Result, ok, err, out_of_fuel}
use garland.Address.{Decoration}
use garland.Node.{Snapshot}
use garland.Heap.{
  Heap, M, ◌>>=◌, return, fail, current, child, add_leaf_quietly, queue_updates, concatenate,
}
use garland.Rope.Search.{LeafSearchResult, find_leaf_by_byte}
use garland.Rope.Delete.{deref}

-- Two keys are the same text.
unfoldable pub same_key : List ℕ → List ℕ → Bool
same_key [] [] = true
same_key [] (c ∷ cs) = false
same_key (b ∷ bs) [] = false
same_key (b ∷ bs) (c ∷ cs) = (b == c) && same_key bs cs

-- The marks of a leaf with those of a key replaced by the new one; and whether there were any.
unfoldable pub replace_mark : Decoration → List Decoration → List Decoration
unfolding same_key
replace_mark new [] = []
replace_mark new (d ∷ ds) = (if same_key d.key new.key then new else d) ∷ replace_mark new ds

unfoldable pub has_key : List ℕ → List Decoration → Bool
unfolding same_key
has_key key [] = false
has_key key (d ∷ ds) = same_key d.key key || has_key key ds

-- The marks of the leaf after addDecorationInternal.
unfoldable pub put_mark : Decoration → List Decoration → List Decoration
unfolding replace_mark has_key
put_mark new ds =
    if has_key new.key ds then replace_mark new ds else replace_mark new ds ++ (new ∷ [])

-- rebuildFromLeafInternal
unfoldable pub rebuild_from_leaf_internal : ℕ → Snapshot → ℕ → ℕ → ℕ → M ℕ
rebuild_from_leaf_internal zero snap target offset new_leaf = fail out_of_fuel
rebuild_from_leaf_internal (suc fuel) snap target offset new_leaf = elim snap.is_leaf [
  | true ↦ return new_leaf
  | false ↦ deref snap.left_id >>= λ l.
      let left_end : ℕ = offset + l.byte_count in
      elim (ltb target left_end) [
        | true ↦ rebuild_from_leaf_internal fuel l target offset new_leaf >>= λ new_left.
            concatenate new_left snap.right_id
        | false ↦ deref snap.right_id >>= λ r.
            rebuild_from_leaf_internal fuel r target left_end new_leaf >>= λ new_right.
            concatenate snap.left_id new_right
      ]
]

-- rebuildFromLeaf
unfoldable pub rebuild_from_leaf : ℕ → ℕ → ℕ → ℕ → M ℕ
unfolding rebuild_from_leaf_internal
rebuild_from_leaf fuel root target new_leaf =
    child root >>= λ s. rebuild_from_leaf_internal fuel s target 0 new_leaf

abbrev pub search : ℕ → ℕ → ℕ → M LeafSearchResult
search fuel root pos h = (find_leaf_by_byte h fuel root pos, h)

-- The new leaf of addDecorationInternal, with the entry that it queues for the cache.
unfoldable pub add_leaf_with : List ℕ → LeafSearchResult → M ℕ
unfolding put_mark queue_updates
add_leaf_with key found =
    let new : Decoration = record { key = key; position = found.byte_offset } in
    add_leaf_quietly found.snapshot.content (put_mark new found.snapshot.decorations)
      found.snapshot.original_file_offset
    >>= λ id. λ h. (ok id, queue_updates id found.leaf_byte_start (new ∷ []) h)

-- addDecorationInternal
unfoldable pub add_decoration_internal : ℕ → ℕ → List ℕ → ℕ → M ℕ
unfolding rebuild_from_leaf add_leaf_with
add_decoration_internal fuel root key pos = search fuel root pos >>= λ found.
    add_leaf_with key found >>= λ new_leaf.
    rebuild_from_leaf fuel root found.leaf_byte_start new_leaf

-- The marks of a leaf that have none of the keys.
unfoldable pub without_keys : (List ℕ → Bool) → List Decoration → List Decoration
without_keys keys [] = []
without_keys keys (d ∷ ds) = if keys d.key then without_keys keys ds else d ∷ without_keys keys ds

unfoldable pub any_key : (List ℕ → Bool) → List Decoration → Bool
any_key keys [] = false
any_key keys (d ∷ ds) = keys d.key || any_key keys ds

-- removeDecorationsInternal: the node, and whether it changed. The offset that the code passes
-- down is not used.
unfoldable pub remove_decorations_internal : ℕ → ℕ → Snapshot → (List ℕ → Bool) → M (ℕ × Bool)
unfolding without_keys any_key
remove_decorations_internal zero id snap keys = fail out_of_fuel
remove_decorations_internal (suc fuel) id snap keys = elim snap.is_leaf [
  | true ↦
      if any_key keys snap.decorations
      then (add_leaf_quietly snap.content (without_keys keys snap.decorations)
            snap.original_file_offset
          >>= λ new. return (new, true))
      else return (id, false)
  | false ↦ deref snap.left_id >>= λ l. deref snap.right_id >>= λ r.
      remove_decorations_internal fuel snap.left_id l keys >>= λ new_left.
      remove_decorations_internal fuel snap.right_id r keys >>= λ new_right.
      if not new_left.1 && not new_right.1
      then return (id, false)
      else (concatenate new_left.0 new_right.0 >>= λ new. return (new, true))
]
