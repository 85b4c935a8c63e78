-- ===== src/Rope/Mark/Add.antt =====
-- What addDecorationInternal leaves: the same text, and the mark at its place.
use garland.Base.{
  ℕ, ◌+◌, ◌≤◌, ◌≡◌, sym, ap, ◌∙◌, subst, false, List, [], ◌∷◌, ◌++◌, length, ltb, arith, ge→ltb,
}
use garland.Result.{Result}
use garland.Address.{Decoration}
use garland.Node.{create_leaf_snapshot}
use garland.Node.Marks.{moved, total, SameMarks, total-append}
use garland.Heap.{Heap, continue, or_invalid, add_leaf_quietly}
use garland.Heap.Steps.{bind-ok}
use garland.Heap.Views.{Valid, Grows-trans}
use garland.Heap.Queue.{queued-Makes}
use garland.Heap.Represents.{
  Rope, leaf, text, marks, height, InLeaves, root_snapshot, byte_count-root_snapshot, Here,
  Here-Grows, Represents-view, Makes,
}
use garland.Rope.Search.{find_leaf_by_byte}
use garland.Rope.Mark.{put_mark, rebuild_from_leaf, search, add_leaf_with, add_decoration_internal}
use garland.Rope.Mark.Found.{
  Found, Finds, found_at, found_at-start, find_leaf_by_byte_internal-Finds,
}
use garland.Rope.Mark.Keys.{
  IsAbsent, replace_mark-IsAbsent, IsAbsent-found_at, Within-put_mark, Within-found_at, found_at-le,
}
use garland.Heap.Sound.{Sound}
use garland.Heap.Sound.Steps.{bind-Sound, queue_updates-Sound}
use garland.Heap.Quiet.{add_leaf_quietly-Makes, add_leaf_quietly-Sound}
use garland.Rope.Sound.Mark.{rebuild_from_leaf-Sound}
use garland.Rope.Mark.Rebuild.{Swapped, rebuild_from_leaf_internal-Swapped}

-- An operation that made a rope with the same text.
pub record SameText (h : Heap) (out : Result ℕ × Heap) (t : Rope) : Type 0 where
  pub rope : Rope
  pub makes : Makes h out rope
  pub same_text : text rope ≡ text t

-- An operation that made a rope with the same text, and one more mark.
pub record Placed (h : Heap) (out : Result ℕ × Heap) (t : Rope) (mark : Decoration) : Type 0 where
  pub rope : Rope
  pub makes : Makes h out rope
  pub same_text : text rope ≡ text t
  pub same_height : height rope ≡ height t
  pub inside : InLeaves rope
  pub one_more : SameMarks (marks rope) (mark ∷ marks t)

module _ (fuel : ℕ) (h : Heap) (root : ℕ) (t : Rope) (key : List ℕ) (pos : ℕ) (v : Valid h)
    (here : Here h root t) (in_leaves : InLeaves t) (tall : height t ≤ fuel)
    (within : pos ≤ length (text t)) where
  at : Found
  at = found_at t pos

  new_mark : Decoration
  unfolding at
  new_mark = record { key = key; position = at.offset }

  found : Finds (find_leaf_by_byte h fuel root pos) at 0
  unfolding at find_leaf_by_byte
  found =
      let size = byte_count-root_snapshot t in
      let inside : ltb (root_snapshot t).byte_count pos ≡ false =
        ge→ltb _ _ (omega (arith, size)) in
      rw (Represents-view h h.current_fork h.current_revision root t here, inside)
        (find_leaf_by_byte_internal-Finds fuel h root t pos 0 0 0 here tall)

  leaf_made :
      Makes h
        (add_leaf_with key found.result h)
        (leaf at.bytes (put_mark new_mark at.decs) at.origin)
  unfolding add_leaf_with new_mark create_leaf_snapshot
  leaf_made =
      rw (found.same_snapshot, found.same_offset)
        (queued-Makes (add_leaf_quietly at.bytes (put_mark new_mark at.decs) at.origin)
          found.result.leaf_byte_start (new_mark ∷ [])
          (add_leaf_quietly-Makes h at.bytes (put_mark new_mark at.decs) at.origin v))

  there : Here leaf_made.after root t
  there = Here-Grows leaf_made.grows root t here

  rebuilt :
      Swapped leaf_made.after
        (rebuild_from_leaf fuel root found.result.leaf_byte_start leaf_made.id leaf_made.after)
        t
        at
        (put_mark new_mark at.decs)
  unfolding rebuild_from_leaf at new_mark
  rebuilt =
      let a = leaf_made.after in
      let view = Represents-view a a.current_fork a.current_revision root t there in
      rw (view, or_invalid, continue, found.same_start)
        (rebuild_from_leaf_internal-Swapped fuel a root leaf_made.id t pos 0
          (put_mark new_mark at.decs) leaf_made.valid there leaf_made.here tall in_leaves
          (Within-put_mark _ new_mark at.decs (found_at-le t pos within)
            (Within-found_at t pos in_leaves)))

  runs :
      add_decoration_internal fuel root key pos h
      ≡ rebuild_from_leaf fuel root found.result.leaf_byte_start leaf_made.id leaf_made.after
  unfolding add_decoration_internal
  runs =
      bind-ok (search fuel root pos) _ h (ap (λ r. (r, h)) found.found)
      ∙ bind-ok (add_leaf_with key found.result) _ h leaf_made.returns

  -- Whether or not the key was there, the text stays.
  pub add_decoration_internal-SameText : SameText h (add_decoration_internal fuel root key pos h) t
  add_decoration_internal-SameText =
      subst (λ out. SameText h out t) (sym runs)
        (record {
          rope = rebuilt.rope;
          makes = record {
            id = rebuilt.makes.id;
            after = rebuilt.makes.after;
            returns = rebuilt.makes.returns;
            grows = Grows-trans leaf_made.grows rebuilt.makes.grows;
            valid = rebuilt.makes.valid;
            here = rebuilt.makes.here;
          };
          same_text = rebuilt.same_text;
        })

  -- With fuel for the height of the rope, a mark whose key the rope does not have, added at a
  -- position up to the end of the text, leaves the text and the height as they were and the marks
  -- as they were but for the new one, which stands at that position; and every node keeps its view
  -- at every version.
  pub add_decoration_internal-Placed :
      IsAbsent key (marks t)
      → Placed h
          (add_decoration_internal fuel root key pos h)
          t
          (record { key = key; position = pos })
  unfolding at new_mark
  add_decoration_internal-Placed absent =
      subst (λ out. Placed h out t (record { key = key; position = pos })) (sym runs)
        (record {
          rope = rebuilt.rope;
          makes = record {
            id = rebuilt.makes.id;
            after = rebuilt.makes.after;
            returns = rebuilt.makes.returns;
            grows = Grows-trans leaf_made.grows rebuilt.makes.grows;
            valid = rebuilt.makes.valid;
            here = rebuilt.makes.here;
          };
          same_text = rebuilt.same_text;
          same_height = rebuilt.same_height;
          inside = rebuilt.inside;
          one_more = one_more;
        })
    where
      put : put_mark new_mark at.decs ≡ at.decs ++ (new_mark ∷ [])
      put =
          unfold put_mark in
          rw (
            IsAbsent-found_at key t pos absent,
            replace_mark-IsAbsent new_mark at.decs (IsAbsent-found_at key t pos absent),
          )

      one_more :
          (w : Decoration → ℕ)
          → total w (marks rebuilt.rope)
            ≡ w (record { key = key; position = pos }) + total w (marks t)
      one_more w =
          let u = λ (d : Decoration). w (moved at.start d) in
          let place : u new_mark ≡ w (record { key = key; position = pos }) =
            ap (λ p. w (record { key = key; position = p }))
              (omega (arith, found_at-start t pos)) in
          omega (
            arith,
            rebuilt.new_marks w,
            ap (total u) put,
            total-append u at.decs (new_mark ∷ []),
            place,
          )

  leaf_made-Sound : Sound h → Sound leaf_made.after
  unfolding add_leaf_with new_mark create_leaf_snapshot at
  leaf_made-Sound s =
      subst (λ out. Sound out.1) leaf_made.returns
        (rw (found.same_snapshot, found.same_offset)
          (bind-Sound (add_leaf_quietly at.bytes (put_mark new_mark at.decs) at.origin) _ h
            (add_leaf_quietly-Sound h at.bytes (put_mark new_mark at.decs) at.origin s (
              Within-put_mark _ new_mark at.decs (found_at-le t pos within)
                (Within-found_at t pos in_leaves)))
            (λ id g e p. queue_updates-Sound id found.result.leaf_byte_start (new_mark ∷ []) p)))

  pub add_decoration_internal-Sound :
      Sound h → Sound (add_decoration_internal fuel root key pos h).1
  add_decoration_internal-Sound s =
      subst (λ out. Sound out.1) (sym runs)
        (rebuild_from_leaf-Sound fuel leaf_made.after root found.result.leaf_byte_start leaf_made.id
          (leaf_made-Sound s))
