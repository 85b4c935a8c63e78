-- ===== src/Rope/Persistence.antt =====
-- An edit of the tree leaves every version of it as it was.
use garland.Base.{ℕ, ◌-◌, ◌≤◌, sym, ap, subst, Bool, List, length}
use garland.Address.{RelativeDecoration}
use garland.Heap.{Heap}
use garland.Heap.Views.{Valid}
use garland.Heap.Represents.{
  Rope, text, height, InLeaves, root_snapshot, Here, Represents, Represents-Grows,
}
use garland.Rope.Insert.{insert_internal}
use garland.Rope.Insert.Tree.{insert_internal-Inserted}
use garland.Rope.Delete.{delete_range}
use garland.Rope.Delete.Text.{delete_range-Leaves}

-- Whatever rope a node stood for at some fork and revision before an insertion, it stands for
-- there after it; the insertion is at a position within the text of a rope whose marks lie within
-- their leaves, with fuel for its height.
pub insert_internal-Represents :
    (bytes : List ℕ) (decs : List RelativeDecoration) (insert_before : Bool) (fuel : ℕ) (h : Heap)
    (root : ℕ) (t : Rope) (pos offset : ℕ)
    → Valid h
    → Here h root t
    → InLeaves t
    → height t ≤ fuel
    → offset ≤ pos
    → pos - offset ≤ length (text t)
    → (f r id : ℕ) (s : Rope) → Represents h f r id s
    → Represents
        (insert_internal fuel (root_snapshot t) pos offset bytes decs insert_before h).1
        f
        r
        id
        s
insert_internal-Represents bytes decs insert_before fuel h root t pos offset v here inside tall
      above within f r id s p =
    let done =
      insert_internal-Inserted bytes decs insert_before fuel h root t pos offset v here inside tall
        above within in
    subst (λ after. Represents after f r id s) (sym (ap (λ out. out.1) done.makes.returns))
      (Represents-Grows done.makes.grows f r id s p)

-- Whatever rope a node stood for at some fork and revision before a deletion with fuel for the
-- height of the rope, it stands for there after it.
pub delete_range-Represents :
    (fuel : ℕ) (h : Heap) (root : ℕ) (t : Rope) (start_pos len : ℕ)
    → Valid h
    → Here h root t
    → height t ≤ fuel
    → (f r id : ℕ) (s : Rope) → Represents h f r id s
    → Represents (delete_range fuel root start_pos len h).1 f r id s
delete_range-Represents fuel h root t start_pos len v here tall f r id s p =
    let done = delete_range-Leaves fuel h root t start_pos len v here tall in
    subst (λ after. Represents after f r id s) (sym (ap (λ out. out.1) done.returns))
      (Represents-Grows done.grows f r id s p)
