-- ===== src/Examples.antt =====
-- Small documents, and the theorems applied to them: trees here, versions in the child module.
pub mod Versions
pub mod Files
pub mod Edits
pub mod Prunes
pub mod Sequences
pub mod Sources
pub mod Words
use garland.Base.{
  ℕ, zero, suc, ◌+◌, ◌-◌, ◌/◌, ◌≤◌, ◌<◌, ◌≡◌, refl, subst, Bool, true, false, List, [], ◌∷◌, ◌++◌,
  take, drop, length, map, Option, none, some, arith, min, ◌⊎◌, inl, inr,
}
use garland.Rope.Build.{build_balanced_subtree}
use garland.Rope.Build.Endless.{build_balanced_subtree-endless}
use garland.Result.{out_of_fuel, ok, err, invalid_position}
use garland.Address.{Decoration, key_byte, all_key_bytes, valid_decoration_key}
use garland.Utf8.{
  rune_count, byte_to_rune_offset, rune_to_byte_offset, align_to_rune_boundary, starts_at,
  rune_start,
}
use garland.Utf8.Convert.{byte_to_rune_offset-rune_to_byte_offset}
use garland.Utf8.Align.{align_to_rune_boundary_lem}
use garland.Node.{ForkInfo, Node, create_leaf_snapshot, partition_decorations}
use garland.Node.Text.{newlines, last_line, line_at, starts_from}
use garland.Node.Leaf.{
  line_count-create_leaf_snapshot, line_starts-create_leaf_snapshot,
  runes_after-create_leaf_snapshot,
}
use garland.Node.Marks.{moved, slide, total, partition_decorations-slide}
use garland.Heap.{Heap, add_leaf, concatenate}
use garland.Heap.Views.{Valid, Grows, Grows-trans}
use garland.Heap.Represents.{
  Represents, Rope, leaf, node, text, root_snapshot, Here, Here-Grows, Makes, add_leaf-Makes,
  concatenate-Makes,
}
use garland.Rope.Persistence.{insert_internal-Represents, delete_range-Represents}
use garland.Codec.{format_uint64, parse_uint64, encode_decorations, decode_decorations}
use garland.Codec.Numbers.{parse_uint64-format_uint64}
use garland.Codec.Decorations.{decode_decorations-encode_decorations}
use garland.Rope.Search.{find_leaf_by_byte}
use garland.Rope.Search.Bytes.{FindsByte, find_leaf_by_byte-FindsByte, find_leaf_by_byte-invalid}
use garland.Rope.Insert.{insert_internal}
use garland.Rope.Insert.Tree.{Inserted, insert_internal-Inserted}
use garland.Rope.Delete.{delete_range}
use garland.Rope.Delete.Steps.{Leaves}
use garland.Rope.Delete.Text.{delete_range-Leaves}
use garland.Rope.Split.{split_leaf, collect_leaves}
use garland.Rope.Split.Text.{Halves, split_leaf-Halves, collect_leaves-text}
use garland.Rope.Balance.{rebalance_if_needed}
use garland.Rope.Balance.Text.{KeepsText, rebalance_if_needed-KeepsText}

abbrev pub first_fork : ForkInfo
first_fork = record {
  id = 0;
  parent_fork = 0;
  parent_revision = 0;
  highest_revision = 1;
  pruned_up_to = 0;
  deleted = false;
}

abbrev pub only_first : ℕ → Option ForkInfo
only_first zero = some first_fork
only_first (suc f) = none

abbrev pub no_heap : Heap
no_heap = record {
  forks = only_first;
  current_fork = 0;
  current_revision = 0;
  next_node_id = 0;
  node_manipulations = 0;
  node_registry = λ _. none;
  internal_nodes_by_children = λ _ _. none;
  max_leaf_size = 8;
  target_leaf_size = 4;
  pending_updates = [];
}

no_heap-Valid : Valid no_heap
no_heap-Valid = record {
  fresh = λ id h. refl;
  uniform = λ id n e. absurd cc;
  joined = λ l r id e. absurd cc;
}

-- "é" and a line, then a second leaf.
abbrev first_bytes : List ℕ
first_bytes = 0xC3 ∷ 0xA9 ∷ 10 ∷ 97 ∷ []

abbrev second_bytes : List ℕ
second_bytes = 98 ∷ 10 ∷ []

abbrev mark : Decoration
mark = record { key = 109 ∷ []; position = 3 }

abbrev first_leaf : Rope
first_leaf = leaf first_bytes (mark ∷ []) none

abbrev second_leaf : Rope
second_leaf = leaf second_bytes [] none

abbrev first_made : Makes no_heap (add_leaf first_bytes (mark ∷ []) none no_heap) first_leaf
first_made = add_leaf-Makes no_heap first_bytes (mark ∷ []) none no_heap-Valid

abbrev second_made :
    Makes first_made.after (add_leaf second_bytes [] none first_made.after) second_leaf
second_made = add_leaf-Makes first_made.after second_bytes [] none first_made.valid

abbrev first_still_here : Here second_made.after first_made.id first_leaf
first_still_here = Here-Grows second_made.grows first_made.id first_leaf first_made.here

concatenate-Makes_example :
    Makes second_made.after
      (concatenate first_made.id second_made.id second_made.after)
      (node first_made.id second_made.id first_leaf second_leaf)
concatenate-Makes_example =
    concatenate-Makes second_made.after first_made.id second_made.id first_leaf second_leaf
      second_made.valid first_still_here second_made.here

abbrev both_made :
    Makes second_made.after
      (concatenate first_made.id second_made.id second_made.after)
      (node first_made.id second_made.id first_leaf second_leaf)
both_made =
    concatenate-Makes second_made.after first_made.id second_made.id first_leaf second_leaf
      second_made.valid first_still_here second_made.here

abbrev both : Rope
both = node first_made.id second_made.id first_leaf second_leaf

insert_internal-Inserted_example :
    Inserted
      (120 ∷ [])
      []
      false
      both_made.after
      (insert_internal 2 (root_snapshot both) 5 0 (120 ∷ []) [] false both_made.after)
      both
      (5 - 0)
insert_internal-Inserted_example =
    insert_internal-Inserted (120 ∷ []) [] false 2 both_made.after both_made.id both 5 0
      both_made.valid both_made.here ((omega arith, tt), tt) (omega arith) (omega arith)
      (omega arith)

delete_range-Leaves_example :
    Leaves both_made.after
      (delete_range 2 both_made.id 3 2 both_made.after)
      (take 3 (text both) ++ drop (3 + 2) (text both))
delete_range-Leaves_example =
    delete_range-Leaves 2 both_made.after both_made.id both 3 2 both_made.valid both_made.here
      (omega arith)

split_leaf-Halves_example :
    Halves no_heap
      (split_leaf (create_leaf_snapshot first_bytes (mark ∷ []) none) 1 no_heap)
      first_bytes
      (align_to_rune_boundary first_bytes 1)
split_leaf-Halves_example =
    split_leaf-Halves no_heap first_bytes (mark ∷ []) none 1 no_heap-Valid (omega arith)

rebalance_if_needed-KeepsText_example :
    KeepsText both_made.after (rebalance_if_needed 2 both_made.id both_made.after) both
rebalance_if_needed-KeepsText_example =
    rebalance_if_needed-KeepsText 2 both_made.after both_made.id both both_made.valid both_made.here

line_starts-create_leaf_snapshot_example :
    (create_leaf_snapshot first_bytes [] none).line_starts
    ≡ map (line_at first_bytes) (0 ∷ starts_from 0 first_bytes)
line_starts-create_leaf_snapshot_example = line_starts-create_leaf_snapshot first_bytes [] none

runes_after-create_leaf_snapshot_example :
    (create_leaf_snapshot first_bytes [] none).runes_after_last_newline
    ≡ rune_count (last_line first_bytes)
runes_after-create_leaf_snapshot_example = runes_after-create_leaf_snapshot first_bytes [] none

byte_to_rune_offset-rune_to_byte_offset_example :
    byte_to_rune_offset first_bytes (rune_to_byte_offset first_bytes 2)
    ≡ min 2 (rune_count first_bytes)
byte_to_rune_offset-rune_to_byte_offset_example =
    byte_to_rune_offset-rune_to_byte_offset first_bytes 2

partition_decorations-slide_example :
    total (λ d. d.position) (partition_decorations (mark ∷ []) 2 false).left
      + total (λ d. (moved 2 d).position) (partition_decorations (mark ∷ []) 2 false).boundary
      + total (λ d. (moved (2 + 5) d).position) (partition_decorations (mark ∷ []) 2 false).right
    ≡ total (λ d. (slide 2 5 false d).position) (mark ∷ [])
partition_decorations-slide_example =
    partition_decorations-slide (λ d. d.position) 5 (mark ∷ []) 2 false

find_leaf_by_byte-FindsByte_example :
    FindsByte (find_leaf_by_byte both_made.after 2 both_made.id 5) (text both) 5 0
find_leaf_by_byte-FindsByte_example =
    find_leaf_by_byte-FindsByte 2 both_made.after both_made.id both 5 both_made.here (omega arith)
      (omega arith)

find_leaf_by_byte-invalid_example :
    find_leaf_by_byte both_made.after 2 both_made.id 7 ≡ err invalid_position
find_leaf_by_byte-invalid_example =
    find_leaf_by_byte-invalid 2 both_made.after both_made.id both 7 both_made.here (omega arith)

both-Grows : Grows no_heap both_made.after
both-Grows = Grows-trans first_made.grows (Grows-trans second_made.grows both_made.grows)

at_first : Here both_made.after both_made.id both → Represents both_made.after 0 0 both_made.id both
at_first here =
    subst (λ f. Represents both_made.after f 0 both_made.id both) both-Grows.same_fork
      (subst (λ r. Represents both_made.after both_made.after.current_fork r both_made.id both)
        both-Grows.same_revision here)

insert_internal-Represents_example :
    Represents
      (insert_internal 2 (root_snapshot both) 5 0 (120 ∷ []) [] false both_made.after).1
      0
      0
      both_made.id
      both
insert_internal-Represents_example =
    insert_internal-Represents (120 ∷ []) [] false 2 both_made.after both_made.id both 5 0
      both_made.valid both_made.here ((omega arith, tt), tt) (omega arith) (omega arith)
      (omega arith) 0 0 both_made.id both (at_first both_made.here)

delete_range-Represents_example :
    Represents (delete_range 2 both_made.id 3 2 both_made.after).1 0 0 both_made.id both
delete_range-Represents_example =
    delete_range-Represents 2 both_made.after both_made.id both 3 2 both_made.valid both_made.here
      (omega arith) 0 0 both_made.id both (at_first both_made.here)

mark_key_is_valid : valid_decoration_key mark.key ≡ true
unfolding valid_decoration_key all_key_bytes key_byte
mark_key_is_valid = refl

decode_decorations-encode_decorations_example :
    decode_decorations (encode_decorations (mark ∷ [])) ≡ ok (mark ∷ [])
decode_decorations-encode_decorations_example =
    decode_decorations-encode_decorations (mark ∷ []) (mark_key_is_valid, omega arith, omega arith)

-- Continuation bytes only: the middle is aligned back to the start.
abbrev continuation : List ℕ
continuation = 0x80 ∷ 0x80 ∷ 0x80 ∷ 0x80 ∷ 0x80 ∷ 0x80 ∷ []

aligned_back : align_to_rune_boundary continuation (length continuation / 2) ≡ 0
unfolding align_to_rune_boundary starts_at
aligned_back = refl

build_balanced_subtree-endless_example :
    (build_balanced_subtree 9 continuation 0 no_heap).0 ≡ err out_of_fuel
build_balanced_subtree-endless_example =
    build_balanced_subtree-endless 9 no_heap continuation 0 (omega arith) aligned_back
