-- ===== src/Rope/Read/Text.antt =====
-- What is read is the slice of the text.
use garland.Base.{
  ℕ, zero, suc, ◌+◌, ◌-◌, ◌≤◌, ◌<◌, min, ◌≡◌, ◌≢◌, refl, sym, ap, ◌∙◌, Bool, true, false, ◌||◌,
  List, ◌++◌, take, drop, length, ltb, leb, ◌==◌, arith, inl, inr, Bool-cases, length-append,
  take_add, drop_add, take_nil, take-append_left, drop-append_left, drop-append_right, take_all,
  drop_all, length-drop, ltb→lt, ltb→ge, leb→le, leb→gt, ==→eq, ==→ne, ge→ltb,
}
use garland.Result.{ok, ◌>>=◌}
use garland.Node.{Snapshot, create_leaf_snapshot}
use garland.Heap.{Heap}
use garland.Heap.Represents.{
  Rope, leaf, node, text, height, root_snapshot, byte_count-root_snapshot, Here, Represents-view,
}
use garland.Rope.Search.{find_leaf_by_byte}
use garland.Rope.Mark.Found.{Finds, found_at, found_at-inside, find_leaf_by_byte_internal-Finds}
use garland.Rope.Read.{to_read, read_leaves, read_bytes_range_internal, or_internal}

-- What is left of the leaf from an offset on is no more than what is left of the text.
found_at-room :
    (t : Rope) (pos : ℕ)
    → pos + length (found_at t pos).bytes ≤ length (text t) + (found_at t pos).offset
found_at-room (leaf bs ds o) pos = omega arith
found_at-room (node i j l r) pos = elim (Bool-cases (ltb pos (length (text l)))) [
  | inl q ↦ rw q (omega (arith, found_at-room l pos, length-append (text l) (text r)))
  | inr q ↦ rw q (
      omega (
        arith,
        ltb→ge _ _ q,
        found_at-room r (pos - length (text l)),
        length-append (text l) (text r),
      ))
]

-- A slice that stays in the leaf of its first byte is a slice of the leaf.
found_at-slice :
    (t : Rope) (pos n : ℕ)
    → (found_at t pos).offset + n ≤ length (found_at t pos).bytes
    → take n (drop pos (text t)) ≡ take n (drop (found_at t pos).offset (found_at t pos).bytes)
found_at-slice (leaf bs ds o) pos n le = refl
found_at-slice (node i j l r) pos n le = elim (Bool-cases (ltb pos (length (text l)))) [
  | inl q ↦ rw q (
      ap (take n) (drop-append_left pos (text l) (text r) (omega (arith, ltb→lt _ _ q)))
      ∙ take-append_left n (drop pos (text l)) (text r) (inside q)
      ∙ found_at-slice l pos n (rw q at le))
  | inr q ↦ rw q (
      ap (take n) (drop-append_right pos (text l) (text r) (ltb→ge _ _ q))
      ∙ found_at-slice r (pos - length (text l)) n (rw q at le))
]
  where
    inside : ltb pos (length (text l)) ≡ true → n ≤ length (drop pos (text l))
    inside q = omega (arith, length-drop pos (text l), found_at-room l pos, (rw q at le))

take-min : (n : ℕ) (xs : List ℕ) {m : ℕ} → length xs ≡ m → take (min n m) xs ≡ take n xs
take-min n xs {m} e = elim (Bool-cases (leb n m)) [
  | inl q ↦ ap (λ k. take k xs) (omega (arith, leb→le n m q))
  | inr q ↦
      take_all (min n m) xs (omega (arith, leb→gt n m q))
      ∙ sym (take_all n xs (omega (arith, leb→gt n m q)))
]

slice-step :
    (t : Rope) (pos k n : ℕ)
    → k ≤ n
    → (found_at t pos).offset + k ≤ length (found_at t pos).bytes
    → take k (drop (found_at t pos).offset (found_at t pos).bytes)
        ++ take (n - k) (drop (pos + k) (text t))
      ≡ take n (drop pos (text t))
slice-step t pos k n le inside =
    let whole : k + (n - k) ≡ n = omega arith in
    ap (λ c. c ++ take (n - k) (drop (pos + k) (text t))) (sym (found_at-slice t pos k inside))
    ∙ ap (λ c. take k (drop pos (text t)) ++ take (n - k) c) (sym (drop_add pos k (text t)))
    ∙ sym (take_add k (n - k) (drop pos (text t)))
    ∙ ap (λ m. take m (drop pos (text t))) whole

neither : (a b : Bool) → (a || b) ≡ false → (a ≡ false) × (b ≡ false)
neither true b e = absurd cc
neither false b e = (refl, e)

-- The loop reads what remains of the text, with a round for each byte.
module _ (h : Heap) (fuel root : ℕ) (t : Rope) (here : Here h root t) (tall : height t ≤ fuel) where
  finds :
      (pos : ℕ)
      → pos < length (text t)
      → Finds (find_leaf_by_byte h fuel root pos) (found_at t pos) 0
  unfolding find_leaf_by_byte
  finds pos lt =
      let size = byte_count-root_snapshot t in
      let within : ltb (root_snapshot t).byte_count pos ≡ false =
        ge→ltb _ _ (omega (arith, size)) in
      rw (Represents-view h h.current_fork h.current_revision root t here, within)
        (find_leaf_by_byte_internal-Finds fuel h root t pos 0 0 0 here tall)

  read_round :
      (rounds remaining pos : ℕ) (rest : List ℕ)
      → ((remaining == 0) || leb (length (text t)) pos) ≡ false
      → (p : Finds (find_leaf_by_byte h fuel root pos) (found_at t pos) 0)
      → read_leaves rounds h fuel root
          (length (text t))
          (remaining - to_read (length (text t)) remaining pos p.result)
          (pos + to_read (length (text t)) remaining pos p.result)
        ≡ ok rest
      → read_leaves (suc rounds) h fuel root (length (text t)) remaining pos
        ≡ ok (
            take
              (to_read (length (text t)) remaining pos p.result)
              (drop p.result.byte_offset p.result.snapshot.content)
            ++ rest)
  unfolding read_leaves
  read_round rounds remaining pos rest go p later = rw (read_leaves, go, p.found, ◌>>=◌, later)

  chunk :
      (pos : ℕ) (p : Finds (find_leaf_by_byte h fuel root pos) (found_at t pos) 0)
      (cut : List ℕ → List ℕ) (rest : List ℕ)
      → cut (drop p.result.byte_offset p.result.snapshot.content) ++ rest
        ≡ cut (drop (found_at t pos).offset (found_at t pos).bytes) ++ rest
  unfolding create_leaf_snapshot
  chunk pos p cut rest =
      ap (λ n. cut (drop n p.result.snapshot.content) ++ rest) p.same_offset
      ∙ ap (λ (s : Snapshot). cut (drop (found_at t pos).offset s.content) ++ rest) p.same_snapshot

  to_read-bounds :
      (remaining pos : ℕ)
      → remaining ≢ 0
      → pos < length (text t)
      → (p : Finds (find_leaf_by_byte h fuel root pos) (found_at t pos) 0)
      → (0 < to_read (length (text t)) remaining pos p.result)
        × (to_read (length (text t)) remaining pos p.result ≤ remaining)
        × ((found_at t pos).offset + to_read (length (text t)) remaining pos p.result
            ≤ length (found_at t pos).bytes)
  unfolding create_leaf_snapshot
  to_read-bounds remaining pos nz lt p =
      let size : p.result.snapshot.byte_count ≡ length (found_at t pos).bytes =
        ap (λ (s : Snapshot). s.byte_count) p.same_snapshot in
      let inside = found_at-inside t pos lt in
      let same = p.same_offset in (omega arith, omega arith, omega arith)

  read_leaves-text :
      (rounds remaining pos : ℕ)
      → remaining ≤ rounds
      → read_leaves rounds h fuel root (length (text t)) remaining pos
        ≡ ok (take remaining (drop pos (text t)))
  unfolding read_leaves
  read_leaves-text zero remaining pos le =
      let none_left : remaining ≡ 0 = omega arith in rw (none_left, read_leaves)
  read_leaves-text (suc rounds) remaining pos le =
      elim (Bool-cases ((remaining == 0) || leb (length (text t)) pos)) [
        | inl q ↦ elim (Bool-cases (remaining == 0)) [
          | inl z ↦ rw (==→eq remaining 0 z, read_leaves)
          | inr nz ↦
              let past : length (text t) ≤ pos = leb→le _ _ (rw nz at q) in
              let test : leb (length (text t)) pos ≡ true = rw nz at q in
              rw (nz, test, read_leaves, drop_all pos (text t) past)
                (ap ok (sym (take_nil remaining)))
        ]
        | inr q ↦
            let nz = neither (remaining == 0) (leb (length (text t)) pos) q in
            let lt : pos < length (text t) = leb→gt _ _ nz.1 in
            let p = finds pos lt in
            let k : ℕ = to_read (length (text t)) remaining pos p.result in
            let bounds = to_read-bounds remaining pos (==→ne _ _ nz.0) lt p in
            read_round rounds remaining pos _ q p
              (read_leaves-text rounds (remaining - k) (pos + k) (omega (arith, bounds.0)))
            ∙ ap ok (
                chunk pos p (take k) (take (remaining - k) (drop (pos + k) (text t)))
                ∙ slice-step t pos k remaining bounds.1 bounds.2)
      ]

  -- With fuel for the height of the rope, the read returns the bytes of the text from `pos` on, as
  -- many as are asked for and there, and none from a position behind the end.
  pub read_bytes_range_internal-text :
      (pos len : ℕ)
      → read_bytes_range_internal h fuel root pos len ≡ ok (take len (drop pos (text t)))
  unfolding read_bytes_range_internal
  read_bytes_range_internal-text pos len = elim (Bool-cases (len == 0)) [
    | inl z ↦ rw (==→eq len 0 z, read_bytes_range_internal)
    | inr nz ↦
        let size = byte_count-root_snapshot t in
        let view = Represents-view h h.current_fork h.current_revision root t here in
        elim (Bool-cases (leb (length (text t)) pos)) [
          | inl past ↦
              rw
                (
                  nz,
                  view,
                  or_internal,
                  ◌>>=◌,
                  size,
                  past,
                  read_bytes_range_internal,
                  drop_all pos (text t) (leb→le _ _ past),
                )
                (ap ok (sym (take_nil len)))
          | inr before ↦
              rw (nz, view, or_internal, ◌>>=◌, size, before, read_bytes_range_internal)
                (read_leaves-text (min len (length (text t) - pos))
                    (min len (length (text t) - pos)) pos (omega arith)
                  ∙ ap ok (take-min len (drop pos (text t)) (length-drop pos (text t))))
        ]
  ]
