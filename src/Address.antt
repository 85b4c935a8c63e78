-- ===== src/Address.antt =====
-- Decorations and their keys (address.go). A key is the list of its bytes.
use garland.Base.{ℕ, Bool, true, false, ◌&&◌, ◌||◌, List, [], ◌∷◌, leb, ◌==◌, if◌then◌else◌}

-- Decoration: a key at a byte offset within its leaf.
pub record Decoration : Type 0 where
  pub key : List ℕ
  pub position : ℕ

-- RelativeDecoration: a key at an offset from the start of inserted content.
pub record RelativeDecoration : Type 0 where
  pub key : List ℕ
  pub position : ℕ

-- LineStart: where a line of a leaf begins, in bytes and in runes.
pub record LineStart : Type 0 where
  pub byte_offset : ℕ
  pub rune_offset : ℕ

-- The bytes that a key may hold.
unfoldable pub key_byte : ℕ → Bool
key_byte c =
    (leb b'a' c && leb c b'z')
    || ((leb b'A' c && leb c b'Z')
        || ((leb b'0' c && leb c b'9')
            || ((c == b'_') || ((c == b'.') || ((c == b'#') || (c == b'-'))))))

unfoldable pub all_key_bytes : List ℕ → Bool
all_key_bytes [] = true
all_key_bytes (c ∷ cs) = if key_byte c then all_key_bytes cs else false

-- ValidDecorationKey
unfoldable pub valid_decoration_key : List ℕ → Bool
valid_decoration_key [] = false
valid_decoration_key (c ∷ cs) = all_key_bytes (c ∷ cs)
