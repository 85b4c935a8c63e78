-- ===== src/Heap/Queue.antt =====
-- Entries queued for the cache of decorations change nothing that a version sees.
use garland.Base.{ℕ, refl, List}
use garland.Result.{ok}
use garland.Address.{Decoration}
use garland.Heap.{Heap, M, ◌>>=◌, queue_updates}
use garland.Heap.Views.{Valid, Grows}
use garland.Heap.Represents.{Rope, Here-Grows, Makes, Makes-bind}

queue_updates-Valid :
    {h : Heap} (id offset : ℕ) (decs : List Decoration)
    → Valid h
    → Valid (queue_updates id offset decs h)
unfolding queue_updates
queue_updates-Valid id offset decs v = record {
  fresh = v.fresh;
  uniform = v.uniform;
  joined = λ l r x e.
      let old = v.joined l r x e in
      record {
        left_snapshot = old.left_snapshot;
        right_snapshot = old.right_snapshot;
        left_content = old.left_content;
        right_content = old.right_content;
        joint = old.joint;
      };
}

queue_updates-Grows :
    (h : Heap) (id offset : ℕ) (decs : List Decoration) → Grows h (queue_updates id offset decs h)
unfolding queue_updates
queue_updates-Grows h id offset decs = record {
  views = λ f r i s e. e;
  contents = λ i s e. e;
  same_forks = refl;
  same_fork = refl;
  same_revision = refl;
  same_max = refl;
}

-- A node that is made and then queued.
pub queued-Makes :
    {h : Heap} {t : Rope} (m : M ℕ) (offset : ℕ) (decs : List Decoration)
    → Makes h (m h) t
    → Makes h ((m >>= λ id. λ h. (ok id, queue_updates id offset decs h)) h) t
queued-Makes {h} {t} m offset decs p = Makes-bind m _ p (record {
  id = p.id;
  after = queue_updates p.id offset decs p.after;
  returns = refl;
  grows = queue_updates-Grows p.after p.id offset decs;
  valid = queue_updates-Valid p.id offset decs p.valid;
  here = Here-Grows (queue_updates-Grows p.after p.id offset decs) p.id t p.here;
})
