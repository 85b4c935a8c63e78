-- ===== src/Examples/Files.antt =====
-- A file of plain letters, and the theorem on the tree that is built for it.
use garland.Base.{ℕ, zero, suc, ◌<◌, ◌≡◌, refl, true, List, [], ◌∷◌, length, arith}
use garland.Utf8.{starts_at, rune_start}
use garland.Heap.{Heap}
use garland.Rope.Build.{build_balanced_subtree}
use garland.Rope.Build.Starts.{Dense}
use garland.Rope.Build.Text.{Initial, Builds, build_balanced_subtree-Builds}
use garland.Examples.{no_heap}

abbrev letters : ℕ → List ℕ
letters zero = []
letters (suc n) = 97 ∷ letters n

length-letters : (n : ℕ) → length (letters n) ≡ n
length-letters zero = refl
length-letters (suc n) = omega (arith, length-letters n)

starts_at-letters : (n p : ℕ) → p < n → starts_at (letters n) p ≡ true
unfolding starts_at rune_start
starts_at-letters zero p h = absurd (omega arith)
starts_at-letters (suc n) zero h = refl
starts_at-letters (suc n) (suc p) h = starts_at-letters n p (omega arith)

letters-Dense : (n : ℕ) → Dense (letters n)
letters-Dense n p h = record {
  at = p;
  from = omega arith;
  to = omega arith;
  is_start = starts_at-letters n p (omega (arith, length-letters n));
}

abbrev first_heap : Heap
first_heap = record no_heap { target_leaf_size = 8 }

first_heap-Initial : Initial first_heap
first_heap-Initial = record {
  valid = record {
    fresh = λ id h. refl;
    uniform = λ id n e. absurd cc;
    joined = λ l r id e. absurd cc;
  };
  first_fork = refl;
  first_revision = refl;
  target = omega arith;
}

build_balanced_subtree-Builds_example :
    Builds first_heap (build_balanced_subtree 21 (letters 20) 0 first_heap) (letters 20)
build_balanced_subtree-Builds_example =
    build_balanced_subtree-Builds 21 first_heap (letters 20) 0 first_heap-Initial (letters-Dense 20)
      (omega arith)
