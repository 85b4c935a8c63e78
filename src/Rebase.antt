-- ===== src/Rebase.antt =====
-- rebaseMapPos (rebase.go): where a position of the old buffer goes in the new one. An anchor is a
-- stretch that the two share. The distance from the last anchor is never negative, since the loop
-- only goes on behind an anchor.
use garland.Base.{
  ℕ, ◌+◌, ◌-◌, ◌≤◌, List, [], ◌∷◌, ltb, if◌then◌else◌, min, arith, inl, inr, Bool-cases, ltb→lt,
  ltb→ge,
}

pub record RebaseAnchor : Type 0 where
  pub old_buf_off : ℕ
  pub length : ℕ
  pub new_off : ℕ

-- The loop, with the ends of the last anchor in the old and the new buffer.
unfoldable pub map_pos_from : ℕ → ℕ → List RebaseAnchor → ℕ → ℕ → ℕ
map_pos_from old_end new_end [] size p = min (new_end + (p - old_end)) size
map_pos_from old_end new_end (a ∷ anchors) size p =
    let rest : ℕ = map_pos_from (a.old_buf_off + a.length) (a.new_off + a.length) anchors size p in
    if ltb p a.old_buf_off
    then min (new_end + (p - old_end)) a.new_off
    else if ltb p (a.old_buf_off + a.length)
    then a.new_off + (p - a.old_buf_off)
    else rest

-- rebaseMapPos
unfoldable pub rebase_map_pos : ℕ → List RebaseAnchor → ℕ → ℕ
unfolding map_pos_from
rebase_map_pos p anchors size = map_pos_from 0 0 anchors size p

-- The anchors stand one behind the other in both buffers, within a new buffer of this size.
abbrev pub InOrder : ℕ → ℕ → List RebaseAnchor → ℕ → Type 0
InOrder old_end new_end [] size = new_end ≤ size
InOrder old_end new_end (a ∷ anchors) size =
    (old_end ≤ a.old_buf_off)
    × (new_end ≤ a.new_off)
    × InOrder (a.old_buf_off + a.length) (a.new_off + a.length) anchors size

-- A position goes to no place before the last anchor, and to none behind the end.
map_pos_from-within :
    (old_end new_end : ℕ) (anchors : List RebaseAnchor) (size p : ℕ)
    → InOrder old_end new_end anchors size
    → (new_end ≤ map_pos_from old_end new_end anchors size p)
      × (map_pos_from old_end new_end anchors size p ≤ size)
unfolding map_pos_from
map_pos_from-within old_end new_end [] size p o = (omega arith, omega arith)
map_pos_from-within old_end new_end (a ∷ anchors) size p (old_le, new_le, o) =
    let rest =
      map_pos_from-within (a.old_buf_off + a.length) (a.new_off + a.length) anchors size p o in
    elim (Bool-cases (ltb p a.old_buf_off)) [
      | inl q ↦ rw q (omega arith, omega (arith, rest.0, rest.1))
      | inr q ↦ elim (Bool-cases (ltb p (a.old_buf_off + a.length))) [
        | inl q' ↦
            rw (q, q') (omega arith, omega (arith, rest.0, rest.1, ltb→lt _ _ q', ltb→ge _ _ q))
        | inr q' ↦ rw (q, q') (omega (arith, rest.0), rest.1)
      ]
    ]

map_pos_from_mono :
    (old_end new_end : ℕ) (anchors : List RebaseAnchor) (size p q : ℕ)
    → InOrder old_end new_end anchors size
    → p ≤ q
    → map_pos_from old_end new_end anchors size p ≤ map_pos_from old_end new_end anchors size q
unfolding map_pos_from
map_pos_from_mono old_end new_end [] size p q o le = omega arith
map_pos_from_mono old_end new_end (a ∷ anchors) size p q (old_le, new_le, o) le =
    let ih =
      map_pos_from_mono (a.old_buf_off + a.length) (a.new_off + a.length) anchors size p q o le in
    let within =
      map_pos_from-within (a.old_buf_off + a.length) (a.new_off + a.length) anchors size q o in
    ground (arith, ih, within)

-- With anchors that stand one behind the other in both buffers, positions keep their order, and
-- none goes behind the end of the new buffer.
pub rebase_map_pos_mono :
    (anchors : List RebaseAnchor) (size p q : ℕ)
    → InOrder 0 0 anchors size
    → p ≤ q
    → (rebase_map_pos p anchors size ≤ rebase_map_pos q anchors size)
      × (rebase_map_pos q anchors size ≤ size)
unfolding rebase_map_pos
rebase_map_pos_mono anchors size p q o le =
    (map_pos_from_mono 0 0 anchors size p q o le, (map_pos_from-within 0 0 anchors size q o).1)
