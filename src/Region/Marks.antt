-- ===== src/Region/Marks.antt =====
-- The marks of a region's handle under an insertion and a deletion.
use garland.Base.{ℕ, ◌≡◌, refl, true, List, [], ◌∷◌, arith}
use garland.Address.{Decoration}
use garland.Region.{adjust_for_insert, adjust_for_delete}

-- Deleting a range of `len` bytes that was inserted before the marks at its place takes every mark
-- back to where it was, and removes none.
pub adjust_for_delete-adjust_for_insert :
    (offset len : ℕ) (ds : List Decoration)
    → adjust_for_delete offset len (adjust_for_insert offset len true ds) ≡ (ds, [])
unfolding adjust_for_delete adjust_for_insert
adjust_for_delete-adjust_for_insert offset len [] = refl
adjust_for_delete-adjust_for_insert offset len (d ∷ ds) =
    let ih = adjust_for_delete-adjust_for_insert offset len ds in ground (arith, ih)
