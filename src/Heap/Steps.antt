-- ===== src/Heap/Steps.antt =====
-- Running an operation step by step.
use garland.Base.{◌≡◌}
use garland.Result.{Error, ok, err}
use garland.Heap.{Heap, M, ◌>>=◌, continue}

pub bind-ok :
    {A B : Type 0} (m : M A) (f : A → M B) (h : Heap) {a : A} {after : Heap}
    → m h ≡ (ok a, after)
    → (m >>= f) h ≡ f a after
bind-ok {A} {B} m f h e = λ i. continue {A = A} {B = B} (e i).0 (e i).1 f

pub bind-err :
    {A B : Type 0} (m : M A) (f : A → M B) (h : Heap) {e : Error} {after : Heap}
    → m h ≡ (err e, after)
    → (m >>= f) h ≡ (err e, after)
bind-err {A} {B} m f h p = λ i. continue {A = A} {B = B} (p i).0 (p i).1 f
