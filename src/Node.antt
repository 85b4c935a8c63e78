-- ===== src/Node.antt =====
-- Snapshots of nodes and the versions of a node (node.go).
pub mod Text
pub mod Leaf
pub mod Lines
pub mod Marks
pub mod Versions
pub mod Lookup
use garland.Base.{
  ℕ, zero, suc, ◌+◌, ◌-◌, Bool, true, false, ◌&&◌, Option, none, some, List, [], ◌∷◌, ◌++◌, length,
  get_elem?, take, drop, ltb, leb, ◌==◌, if◌then◌else◌,
}
use garland.Address.{Decoration, LineStart}
use garland.Utf8.{rune_count}

-- ForkRevision: the version under which a snapshot is filed.
pub record ForkRevision : Type 0 where
  pub fork : ℕ
  pub revision : ℕ

-- ForkInfo
pub record ForkInfo : Type 0 where
  pub id : ℕ
  pub parent_fork : ℕ
  pub parent_revision : ℕ
  pub highest_revision : ℕ
  pub pruned_up_to : ℕ
  pub deleted : Bool

-- NodeSnapshot, while its bytes are in memory. `none` for the original file offset is the -1.
pub record Snapshot : Type 0 where
  pub is_leaf : Bool
  pub left_id : ℕ
  pub right_id : ℕ
  pub content : List ℕ
  pub decorations : List Decoration
  pub original_file_offset : Option ℕ
  pub byte_count : ℕ
  pub rune_count : ℕ
  pub line_count : ℕ
  pub runes_after_last_newline : ℕ
  pub line_starts : List LineStart

-- bytes.IndexByte(data, '\n')
pub index_newline : List ℕ → Option ℕ
index_newline [] = none
index_newline (b ∷ bs) =
    if b == 10 then some 0 else elim (index_newline bs) [ none ↦ none | some i ↦ some (suc i) ]

-- A line start is recorded only if there is text behind its newline.
unfoldable pub add_line : List ℕ → LineStart → List LineStart → List LineStart
add_line [] start starts = starts
add_line (_ ∷ _) start starts = start ∷ starts

-- The loop of createLeafSnapshot from newline to newline: `prev` and `runes` are where the current
-- line starts. It returns the lines that start behind a newline, and the number of newlines. Each
-- round takes at least one byte from `rest`, so its length is fuel enough.
unfoldable pub scan_lines : ℕ → List ℕ → ℕ → ℕ → List LineStart × ℕ
unfolding index_newline add_line
scan_lines zero rest prev runes = ([], 0)
scan_lines (suc fuel) rest prev runes = elim (index_newline rest) [
  | none ↦ ([], 0)
  | some i ↦
      let next : List ℕ = drop (suc i) rest in
      let runes' : ℕ = runes + rune_count (take (suc i) rest) in
      let later = scan_lines fuel next (prev + suc i) runes' in
      (
        add_line next (record { byte_offset = prev + suc i; rune_offset = runes' }) later.0,
        suc later.1,
      )
]

-- The runes behind the last newline, by createLeafSnapshot's three cases.
unfoldable pub runes_after : ℕ → ℕ → List LineStart → ℕ
runes_after runes lines starts =
    if lines == 0
    then runes
    else elim (get_elem? starts lines) [ some l ↦ runes - l.rune_offset | none ↦ 0 ]

abbrev pub first_line : LineStart
first_line = record { byte_offset = 0; rune_offset = 0 }

-- createLeafSnapshot
unfoldable pub create_leaf_snapshot : List ℕ → List Decoration → Option ℕ → Snapshot
create_leaf_snapshot bytes decs offset =
    let scanned = scan_lines (length bytes) bytes 0 0 in
    let starts : List LineStart = first_line ∷ scanned.0 in
    record {
      is_leaf = true;
      left_id = 0;
      right_id = 0;
      content = bytes;
      decorations = decs;
      original_file_offset = offset;
      byte_count = length bytes;
      rune_count = rune_count bytes;
      line_count = scanned.1;
      runes_after_last_newline = runes_after (rune_count bytes) scanned.1 starts;
      line_starts = starts;
    }

-- createInternalSnapshot
unfoldable pub create_internal_snapshot : ℕ → ℕ → Snapshot → Snapshot → Snapshot
create_internal_snapshot left right l r = record {
  is_leaf = false;
  left_id = left;
  right_id = right;
  content = [];
  decorations = [];
  original_file_offset = some 0;
  byte_count = l.byte_count + r.byte_count;
  rune_count = l.rune_count + r.rune_count;
  line_count = l.line_count + r.line_count;
  runes_after_last_newline =
      (if ltb 0 r.line_count
        then r.runes_after_last_newline
        else l.runes_after_last_newline + r.rune_count);
  line_starts = [];
}

-- partitionDecorations: the marks left of an insertion, those at its start, and those right of it.
pub record Parts : Type 0 where
  pub left : List Decoration
  pub boundary : List Decoration
  pub right : List Decoration

unfoldable pub partition_decorations : List Decoration → ℕ → Bool → Parts
partition_decorations [] pos insert_before = record { left = []; boundary = []; right = [] }
partition_decorations (d ∷ ds) pos insert_before =
    let rest = partition_decorations ds pos insert_before in
    if ltb d.position pos
    then record rest { left = d ∷ rest.left }
    else if (d.position == pos) && (if insert_before then false else true)
    then record rest { boundary = record { key = d.key; position = 0 } ∷ rest.boundary }
    else record rest { right = record { key = d.key; position = d.position - pos } ∷ rest.right }

-- Node: its identifier is its place in the registry; `history` is the map of its snapshots.
pub record Node : Type 0 where
  pub history : List (ForkRevision × Snapshot)

abbrev pub key_eq : ForkRevision → ForkRevision → Bool
key_eq a b = (a.fork == b.fork) && (a.revision == b.revision)

-- n.history[key]
pub exact : ForkRevision → List (ForkRevision × Snapshot) → Option Snapshot
exact key [] = none
exact key ((k, s) ∷ h) = if key_eq k key then some s else exact key h

-- An entry takes the place of a best one that is lower, or of none.
unfoldable pub take_higher :
    ForkRevision → Snapshot → Option (ForkRevision × Snapshot) → Option (ForkRevision × Snapshot)
take_higher k s none = some (k, s)
take_higher k s (some (bk, bs)) = if ltb bk.revision k.revision then some (k, s) else some (bk, bs)

-- The loop of snapshotAtWithKey over the map: of the entries of `fork` at or below `rev`, the
-- highest, with `best` the highest so far.
unfoldable pub highest :
    ℕ
    → ℕ
    → List (ForkRevision × Snapshot)
    → Option (ForkRevision × Snapshot)
    → Option (ForkRevision × Snapshot)
unfolding take_higher
highest fork rev [] best = best
highest fork rev ((k, s) ∷ h) best =
    highest fork rev h
      (if (k.fork == fork) && leb k.revision rev then take_higher k s best else best)

-- snapshotAtWithKey: `fuel` bounds the walk to the parent forks. A fork is made after its parent
-- and numbered above it, so one round more than the fork's number is enough.
unfoldable pub snapshot_from :
    (ℕ → Option ForkInfo)
    → List (ForkRevision × Snapshot)
    → ℕ
    → ℕ
    → ℕ
    → Option (ForkRevision × Snapshot)
unfolding exact highest
snapshot_from forks history zero fork rev = none
snapshot_from forks history (suc fuel) fork rev =
    elim (exact (record { fork = fork; revision = rev }) history) [
      | some s ↦ some (record { fork = fork; revision = rev }, s)
      | none ↦ elim (highest fork rev history none) [
        | some e ↦ some e
        | none ↦ elim (forks fork) [
          | none ↦ none
          | some info ↦ elim (info.parent_fork == fork) [
            | true ↦ none
            | false ↦ snapshot_from forks history fuel info.parent_fork info.parent_revision
          ]
        ]
      ]
    ]

unfoldable pub snapshot_at_with_key :
    (ℕ → Option ForkInfo) → Node → ℕ → ℕ → Option (ForkRevision × Snapshot)
snapshot_at_with_key forks node fork rev = snapshot_from forks node.history (suc fork) fork rev

-- snapshotAt
unfoldable pub snapshot_at : (ℕ → Option ForkInfo) → Node → ℕ → ℕ → Option Snapshot
snapshot_at forks node fork rev = elim (snapshot_at_with_key forks node fork rev) [
  | none ↦ none
  | some e ↦ some e.1
]

-- setSnapshot, on the history: the entry of the key is replaced, or a new one is added.
unfoldable pub set_entry :
    ForkRevision → Snapshot → List (ForkRevision × Snapshot) → List (ForkRevision × Snapshot)
set_entry key snap [] = (key, snap) ∷ []
set_entry key snap ((k, s) ∷ h) =
    if key_eq k key then (key, snap) ∷ h else (k, s) ∷ set_entry key snap h

unfoldable pub set_snapshot : ℕ → ℕ → Snapshot → Node → Node
unfolding set_entry
set_snapshot fork rev snap node = record {
  history = set_entry (record { fork = fork; revision = rev }) snap node.history;
}
