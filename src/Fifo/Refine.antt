-- ===== src/Fifo/Refine.antt =====
-- A valid ring behaves as the queue of the bytes that it holds.
use native.Mathlib.Decide.{ℕ_discrete}
use firefly_zephyr.Base.{
  ℕ, ◌-◌, ◌^◌, ◌≤◌, ◌<◌, ◌≡◌, refl, sym, ◌∙◌, ◌≢◌, true, false, none, some, [], ◌∷◌, ◌++◌, arith,
  length, get_or, set, length-set, get_or-set_self, get_or-set_ne,
}
use firefly_zephyr.Base.Ring.{
  after, place, span, items, length-items, items-snoc, after-lt, span-lt, place-span, span_self,
  span-after_tail, span-full, span-not_full, span-after_head,
}
use firefly_zephyr.Fifo.{Fifo, get_count, next_index, get, put}
use firefly_zephyr.Fifo.Queue
use firefly_zephyr.Fifo.Queue.{Queue, Op, Reply}

-- The ring's indices lie in its buffer, and its size fits the machine word.
pub record IsValid (f : Fifo) : Type 0 where
  pub stored : f.size ≤ length f.buffer
  pub small : f.size < 2 ^ 32
  pub head_in : f.head < f.size
  pub tail_in : f.tail < f.size

-- The bytes held, oldest first.
abbrev pub held : Fifo → ℕ
held f = span f.size f.head f.tail

abbrev pub contents : Fifo → Queue
contents f = items (λ i. get_or f.buffer i 0) f.size f.head (held f)

pub length-contents : (f : Fifo) → length (contents f) ≡ held f
length-contents f = length-items (λ i. get_or f.buffer i 0) f.size f.head (held f)

-- No index step wraps at the word.
next-after : (size x : ℕ) → x < size → size < 2 ^ 32 → next_index size x ≡ after size x
unfolding after
next-after size x p q = ground arith

pub get_count-held : {f : Fifo} → IsValid f → get_count f ≡ held f
unfolding get_count span
get_count-held v = ground arith

-- What each branch of `get` and `put` returns.
module _ {f : Fifo} (v : IsValid f) where
  get_empty : f.head ≡ f.tail → get f ≡ (none, f)
  unfolding get
  get_empty e = ground arith

  get-some :
      f.head ≢ f.tail
      → get f ≡ (some (get_or f.buffer f.head 0), record f { head = after f.size f.head })
  unfolding get
  get-some ne = ground (arith, next-after f.size f.head v.head_in v.small)

  put_full : (x : ℕ) → after f.size f.tail ≡ f.head → put f x ≡ (false, f)
  unfolding put
  put_full x e = ground (arith, next-after f.size f.tail v.tail_in v.small)

  put_room :
      (x : ℕ)
      → after f.size f.tail ≢ f.head
      → put f x ≡ (true, record f { buffer = set f.buffer f.tail x; tail = after f.size f.tail })
  unfolding put
  put_room x ne = ground (arith, next-after f.size f.tail v.tail_in v.small)

pub get-IsValid : {f : Fifo} → IsValid f → IsValid (get f).1
unfolding get
get-IsValid {f} v = ground (arith, next-after f.size f.head, after-lt f.size f.head)

pub put-IsValid : {f : Fifo} (x : ℕ) → IsValid f → IsValid (put f x).1
unfolding put
put-IsValid {f} x v =
    ground (arith, next-after f.size f.tail, after-lt f.size f.tail, length-set f.buffer f.tail x)

-- Adding behind the tail appends to the contents.
contents-put :
    {f : Fifo} (x : ℕ)
    → IsValid f
    → after f.size f.tail ≢ f.head
    → contents (record f { buffer = set f.buffer f.tail x; tail = after f.size f.tail })
      ≡ contents f ++ (x ∷ [])
contents-put {f} x v ne = rw (span-after_tail f.size f.head f.tail v.head_in v.tail_in ne) (
    items-snoc _ _ f.size x (held f) f.head v.head_in (span-lt _ _ _ v.head_in v.tail_in)
      (rw at_tail (get_or-set_self f.buffer f.tail x 0 (omega (arith, v.stored, v.tail_in))))
      (λ i r away. get_or-set_ne f.buffer f.tail i x 0 (λ e. away (e ∙ sym at_tail))))
  where
    at_tail : place f.size f.head (held f) ≡ f.tail
    at_tail = place-span f.size f.head f.tail v.head_in v.tail_in

pub contents-get :
    {f : Fifo}
    → IsValid f
    → f.head ≢ f.tail
    → contents f ≡ get_or f.buffer f.head 0 ∷ contents (record f { head = after f.size f.head })
unfolding items
contents-get {f} v ne = rw (span-after_head f.size f.head f.tail v.head_in v.tail_in ne)

pub contents_empty : (f : Fifo) → f.head ≡ f.tail → contents f ≡ []
unfolding items
contents_empty f e = rw (e, span_self f.size f.tail)

-- `fd_fifo_put` accepts a byte exactly when the queue does, and appends it.
pub put_refines :
    {f : Fifo} (x : ℕ)
    → IsValid f
    → let (ok, f') = put f x in (ok, contents f') ≡ Queue.add_last (f.size - 1) (contents f) x
unfolding Queue.add_last
put_refines {f} x v = elim (ℕ_discrete (after f.size f.tail) f.head) [
  | yes e ↦
      rw (put_full v x e) (ground (arith, length-contents f, span-full _ _ _ v.head_in v.tail_in e))
  | no ne ↦
      rw (put_room v x ne, contents-put x v ne)
        (ground (arith, length-contents f, span-not_full _ _ _ v.head_in v.tail_in ne))
]

-- `fd_fifo_get` takes the oldest byte, or nothing from an empty ring.
pub get_refines :
    {f : Fifo}
    → IsValid f
    → let (byte, f') = get f in (byte, contents f') ≡ Queue.take_first (contents f)
unfolding Queue.take_first
get_refines {f} v = elim (ℕ_discrete f.head f.tail) [
  | yes e ↦ rw (get_empty v e, contents_empty f e) refl
  | no ne ↦ rw (get-some v ne, contents-get v ne) refl
]

pub size-put : (f : Fifo) (x : ℕ) → (put f x).1.size ≡ f.size
unfolding put
size-put f x = ground arith

pub size-get : (f : Fifo) → (get f).1.size ≡ f.size
unfolding get
size-get f = ground arith
