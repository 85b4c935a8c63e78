-- ===== src/Heap/Represents.antt =====
-- Trees in the registry: what a node's number stands for at a version.
use garland.Base.{
  ℕ, suc, ◌+◌, max, ◌≡◌, refl, ◌∙◌, List, ◌++◌, length, map, arith, Option, none, some, inl, inr,
  Option-cases, length-append,
}
use garland.Result.{Result, ok}
use garland.Address.{Decoration}
use garland.Node.{Snapshot, Node, create_leaf_snapshot, create_internal_snapshot}
use garland.Heap.{
  Heap, M, view, current, ◌>>=◌, continue, return, put_snapshot, add_node, add_leaf, add_internal,
  existing, join, concatenate,
}
use garland.Node.Marks.{moved, Within, Within-append, Within-mono, Within-moved}
use garland.Heap.Steps.{bind-ok}
use garland.Heap.Views.{
  content, Joined, Valid, Grows, Grows-refl, Grows-trans, content-view, put_snapshot-Valid,
  put_snapshot-Grows, current-put_snapshot,
}
use garland.Heap.Fresh.{
  add_node-Valid, add_node-Grows, current-add_node, add_internal-Valid, add_internal-Grows,
  current-add_internal,
}

-- A rope without its registry; a node keeps the numbers of its children.
pub data Rope : Type 0 where
  leaf : List ℕ → List Decoration → Option ℕ → Rope
  node : ℕ → ℕ → Rope → Rope → Rope

-- The snapshot of the root.
unfoldable pub root_snapshot : Rope → Snapshot
root_snapshot (leaf bs decs offset) = create_leaf_snapshot bs decs offset
root_snapshot (node i j l r) = create_internal_snapshot i j (root_snapshot l) (root_snapshot r)

-- The text.
abbrev pub text : Rope → List ℕ
text (leaf bs decs offset) = bs
text (node i j l r) = text l ++ text r

-- The marks, with positions in the whole text.
abbrev pub marks : Rope → List Decoration
marks (leaf bs decs offset) = decs
marks (node i j l r) = marks l ++ map (moved (length (text l))) (marks r)

abbrev pub height : Rope → ℕ
height (leaf bs decs offset) = 1
height (node i j l r) = suc (max (height l) (height r))

-- Marks lie within their leaves.
abbrev pub InLeaves : Rope → Type 0
InLeaves (leaf bs decs offset) = Within (length bs) decs
InLeaves (node i j l r) = InLeaves l × InLeaves r

pub InLeaves-Within : (t : Rope) → InLeaves t → Within (length (text t)) (marks t)
InLeaves-Within (leaf bs decs offset) h = h
InLeaves-Within (node i j l r) h = rw (length-append (text l) (text r)) (
    Within-append _ (marks l) _ (Within-mono (marks l) (omega arith) (InLeaves-Within l h.0))
      (Within-moved _ (length (text l)) (marks r) (InLeaves-Within r h.1)))

pub byte_count-root_snapshot : (t : Rope) → (root_snapshot t).byte_count ≡ length (text t)
unfolding root_snapshot create_leaf_snapshot create_internal_snapshot
byte_count-root_snapshot (leaf bs decs offset) = refl
byte_count-root_snapshot (node i j l r) =
    omega (
      arith,
      byte_count-root_snapshot l,
      byte_count-root_snapshot r,
      length-append (text l) (text r),
    )

-- Node `id` is the root of this rope at version (f, r).
abbrev pub Represents : Heap → ℕ → ℕ → ℕ → Rope → Type 0
Represents h f r id (leaf bs decs offset) =
    view h f r id ≡ some (root_snapshot (leaf bs decs offset))
Represents h f r id (node i j s t) =
    (view h f r id ≡ some (root_snapshot (node i j s t)))
    × Represents h f r i s
    × Represents h f r j t

-- At the current version.
abbrev pub Here : Heap → ℕ → Rope → Type 0
Here h id t = Represents h h.current_fork h.current_revision id t

pub Represents-view :
    (h : Heap) (f r id : ℕ) (t : Rope)
    → Represents h f r id t
    → view h f r id ≡ some (root_snapshot t)
Represents-view h f r id (leaf bs decs offset) p = p
Represents-view h f r id (node i j s t) p = p.0

-- A rope that a version could see it still sees.
pub Represents-Grows :
    {h after : Heap}
    → Grows h after
    → (f r id : ℕ) (t : Rope) → Represents h f r id t
    → Represents after f r id t
Represents-Grows g f r id (leaf bs decs offset) p = g.views f r id _ p
Represents-Grows g f r id (node i j s t) p =
    (g.views f r id _ p.0, Represents-Grows g f r i s p.1, Represents-Grows g f r j t p.2)

pub Here-Grows :
    {h after : Heap} → Grows h after → (id : ℕ) (t : Rope) → Here h id t → Here after id t
Here-Grows {h} {after} g id t p =
    rw (g.same_fork, g.same_revision) (Represents-Grows g h.current_fork h.current_revision id t p)

-- An operation that returned a node for this rope, and kept all that was there.
pub record Makes (h : Heap) (out : Result ℕ × Heap) (t : Rope) : Type 0 where
  pub id : ℕ
  pub after : Heap
  pub returns : out ≡ (ok id, after)
  pub grows : Grows h after
  pub valid : Valid after
  pub here : Here after id t

add_node-returns :
    (snap : Snapshot) (h : Heap) → add_node snap h ≡ (ok (h.next_node_id + 1), (add_node snap h).1)
unfolding add_node
add_node-returns snap h = refl

add_internal-returns :
    (left right : ℕ) (snap : Snapshot) (h : Heap)
    → add_internal left right snap h ≡ (ok (h.next_node_id + 1), (add_internal left right snap h).1)
unfolding add_internal add_node
add_internal-returns left right snap h = refl

pub add_leaf-Makes :
    (h : Heap) (bs : List ℕ) (decs : List Decoration) (offset : Option ℕ)
    → Valid h
    → Makes h (add_leaf bs decs offset h) (leaf bs decs offset)
unfolding root_snapshot
add_leaf-Makes h bs decs offset v =
    let snap = create_leaf_snapshot bs decs offset in
    record {
      id = h.next_node_id + 1;
      after = (add_node snap h).1;
      returns = add_node-returns snap h;
      grows = add_node-Grows v snap;
      valid = add_node-Valid v snap;
      here = current-add_node v snap;
    }

module _ (h : Heap) (left right : ℕ) (s t : Rope) (v : Valid h) (l : Here h left s)
    (r : Here h right t) where
  left_view : current h left ≡ some (root_snapshot s)
  left_view = Represents-view h h.current_fork h.current_revision left s l

  right_view : current h right ≡ some (root_snapshot t)
  right_view = Represents-view h h.current_fork h.current_revision right t r

  left_content : content h left ≡ some (root_snapshot s)
  left_content = content-view v h.current_fork h.current_revision left _ left_view

  right_content : content h right ≡ some (root_snapshot t)
  right_content = content-view v h.current_fork h.current_revision right _ right_view

  joint : Snapshot
  joint = create_internal_snapshot left right (root_snapshot s) (root_snapshot t)

  concatenate-join : concatenate left right h ≡ join left right joint h
  unfolding concatenate joint
  concatenate-join = rw (left_view, continue, right_view)

  here-join :
      {after : Heap}
      → Grows h after
      → (id : ℕ) → current after id ≡ some joint
      → Here after id (node left right s t)
  unfolding joint root_snapshot
  here-join g id c = (c, Here-Grows g left s l, Here-Grows g right t r)

  -- A node filed under the two children has the snapshot already.
  Joined-content : (id : ℕ) → Joined h left right id → content h id ≡ some joint
  unfolding joint
  Joined-content id old =
      let p : old.left_snapshot ≡ root_snapshot s = cc (old.left_content, left_content) in
      let q : old.right_snapshot ≡ root_snapshot t = cc (old.right_content, right_content) in
      rw (p, q) at old.joint

  join-new : existing h left right ≡ none → Makes h (join left right joint h) (node left right s t)
  unfolding join joint
  join-new e =
      let g = add_internal-Grows v left right _ _ left_content right_content in
      record {
        id = h.next_node_id + 1;
        after = (add_internal left right joint h).1;
        returns = rw (e, join) (add_internal-returns left right joint h);
        grows = g;
        valid = add_internal-Valid v left right _ _ left_content right_content;
        here =
            here-join g (h.next_node_id + 1)
              (current-add_internal v left right _ _ left_content right_content);
      }

  join-old :
      (id : ℕ) (n : Node)
      → existing h left right ≡ some (id, n)
      → h.node_registry id ≡ some n
      → Joined h left right id
      → Makes h (join left right joint h) (node left right s t)
  unfolding join
  join-old id n e here old =
      let own = Joined-content id old in
      let g = put_snapshot-Grows v id n joint here own in
      record {
        id = id;
        after = put_snapshot id n joint h;
        returns = rw (e, join);
        grows = g;
        valid = put_snapshot-Valid v id n joint here own;
        here = here-join g id (current-put_snapshot v id n joint here own);
      }

  -- A new node for the two, whatever joined them before.
  pub add_internal-Makes :
      Makes h
        (add_internal left right
          (create_internal_snapshot left right (root_snapshot s) (root_snapshot t))
          h)
        (node left right s t)
  unfolding joint
  add_internal-Makes =
      let g = add_internal-Grows v left right _ _ left_content right_content in
      record {
        id = h.next_node_id + 1;
        after = (add_internal left right joint h).1;
        returns = add_internal-returns left right joint h;
        grows = g;
        valid = add_internal-Valid v left right _ _ left_content right_content;
        here =
            here-join g (h.next_node_id + 1)
              (current-add_internal v left right _ _ left_content right_content);
      }

  -- Joining two ropes gives a node for the joined rope, whether a node of the pair was there or
  -- not, and every node keeps its view at every version.
  pub concatenate-Makes : Makes h (concatenate left right h) (node left right s t)
  concatenate-Makes =
      rw concatenate-join (elim (Option-cases (h.internal_nodes_by_children left right)) [
        | inl e ↦ join-new (rw (e, existing))
        | inr (id, e) ↦ elim (Option-cases (h.node_registry id)) [
          | inl e' ↦ join-new (rw (e, existing, e'))
          | inr (n, e') ↦ join-old id n (rw (e, existing, e')) e' (v.joined left right id e)
        ]
      ])

-- A step that made a node, and a second one that makes a node from there.
pub Makes-bind :
    {h : Heap} {t s : Rope} (m : M ℕ) (f : ℕ → M ℕ) (p : Makes h (m h) t)
    → Makes p.after (f p.id p.after) s
    → Makes h ((m >>= f) h) s
Makes-bind {h} m f p q = record {
  id = q.id;
  after = q.after;
  returns = bind-ok m f h p.returns ∙ q.returns;
  grows = Grows-trans p.grows q.grows;
  valid = q.valid;
  here = q.here;
}

pub Makes-return : {h : Heap} {t : Rope} (id : ℕ) → Valid h → Here h id t → Makes h (return id h) t
Makes-return {h} id v here = record {
  id = id;
  after = h;
  returns = refl;
  grows = Grows-refl h;
  valid = v;
  here = here;
}

-- Joining a node that was there with one that was just made.
pub Makes-join :
    {h : Heap} {s t : Rope} (m : M ℕ) (p : Makes h (m h) t) (left : ℕ)
    → Here h left s
    → Makes h ((m >>= λ right. concatenate left right) h) (node left p.id s t)
Makes-join {h} {s} {t} m p left l =
    Makes-bind m _ p
      (concatenate-Makes p.after left p.id s t p.valid (Here-Grows p.grows left s l) p.here)

pub Makes-join_right :
    {h : Heap} {s t : Rope} (m : M ℕ) (p : Makes h (m h) s) (right : ℕ)
    → Here h right t
    → Makes h ((m >>= λ left. concatenate left right) h) (node p.id right s t)
Makes-join_right {h} {s} {t} m p right r =
    Makes-bind m _ p
      (concatenate-Makes p.after p.id right s t p.valid p.here (Here-Grows p.grows right t r))
