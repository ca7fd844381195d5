-- ===== src/ObjectFifo/Refine.antt =====
-- A valid object ring behaves as the queue of the objects that it holds.
use mathlib.Core.Option
use native.Mathlib.Nat.{mod-eq_of_lt, mod-eq-sub-mod}
use native.Mathlib.Decide.{ℕ_discrete, dec_lt}
use firefly_zephyr.Base.{
  ℕ, suc, ◌+◌, ◌-◌, ◌*◌, ◌%◌, ◌^◌, ◌≤◌, ◌<◌, ◌≡◌, refl, sym, ap, ◌∙◌, ◌≢◌, Bool, true, false,
  Option, none, some, List, [], ◌∷◌, ◌++◌, arith, length, get_elem?, Bool-cases, inl, inr, leb,
  if◌then◌else◌,
}
use firefly_zephyr.Base.Bytes.{
  slice, copy_in, slice-copy_in, slice-copy_in_outside, slots_apart, mul_mono,
}
use firefly_zephyr.Base.Ring.{
  after, place, span, items, length-items, items-snoc, items-keep, get_elem?-items, get_elem?-none,
  span-lt, place-span, span_self, span-after_tail, span-full, span-not_full, span-after_head,
}
use firefly_zephyr.ObjectFifo.{
  ObjectFifo, assert_failure, get_count, is_empty, is_full, allocate, get_next_tail, commit, view,
  deallocate,
}
use firefly_zephyr.ObjectFifo.Objects
use firefly_zephyr.ObjectFifo.Objects.{Object, Objects, Op, Reply}

-- The slots lie in the buffer, and an allocated slot is free. The bound on `size` keeps
-- `head + index` in the machine word.
pub record IsValid (f : ObjectFifo) : Type 0 where
  pub stored : f.size * f.object_size ≤ length f.buffer
  pub small : f.size ≤ 2 ^ 31
  pub head_in : f.head < f.size
  pub tail_in : f.tail < f.size
  pub room : f.is_allocated ≡ true → after f.size f.tail ≢ f.head

abbrev pub slot : ObjectFifo → ℕ → Object
slot f i = slice f.buffer (i * f.object_size) f.object_size

abbrev pub held : ObjectFifo → ℕ
held f = span f.size f.head f.tail

abbrev pub objects : ObjectFifo → List Object
objects f = items (slot f) f.size f.head (held f)

-- The queue that the ring stands for.
abbrev pub contents : ObjectFifo → Objects
contents f = record {
  queue = objects f;
  pending = if f.is_allocated then some (slot f f.tail) else none;
  asserts = f.asserts;
}

pub length-objects : (f : ObjectFifo) → length (objects f) ≡ held f
length-objects f = length-items (slot f) f.size f.head (held f)

module _ {f : ObjectFifo} (v : IsValid f) where
  pub get_count-held : get_count f ≡ held f
  unfolding get_count span
  get_count-held = ground arith

  pub next_tail-after : get_next_tail f ≡ after f.size f.tail
  unfolding get_next_tail after
  next_tail-after = ground arith

  pub is_full-true : after f.size f.tail ≡ f.head → is_full f ≡ true
  unfolding is_full
  is_full-true e =
      ground (arith, get_count-held, span-full f.size f.head f.tail v.head_in v.tail_in e)

  pub is_full-false : after f.size f.tail ≢ f.head → is_full f ≡ false
  unfolding is_full
  is_full-false ne =
      ground (arith, get_count-held, span-not_full f.size f.head f.tail v.head_in v.tail_in ne)

  at_tail : place f.size f.head (held f) ≡ f.tail
  at_tail = place-span f.size f.head f.tail v.head_in v.tail_in

  slot_fits : (i : ℕ) → i < f.size → i * f.object_size + f.object_size ≤ length f.buffer
  slot_fits i p = omega (arith, mul_mono (suc i) f.size f.object_size p, v.stored)

-- Writing an object of the right size into the slot at the tail.
abbrev pub write_at_tail : ObjectFifo → Object → ObjectFifo
write_at_tail f x = record f { buffer = copy_in f.buffer (f.tail * f.object_size) x }

-- The two steps that put an object in: write through the pointer that `allocate` returns.
unfoldable pub begin_object : ObjectFifo → Object → Bool × ObjectFifo
begin_object f x =
    let (p, f') = allocate f in
    elim p [ none ↦ (false, f') | some o ↦ (true, record f' { buffer = copy_in f'.buffer o x }) ]

module _ {f : ObjectFifo} (v : IsValid f) (x : Object) (sized : length x ≡ f.object_size) where
  slot-write_self : slot (write_at_tail f x) f.tail ≡ x
  slot-write_self =
      ap (slice (copy_in f.buffer (f.tail * f.object_size) x) (f.tail * f.object_size)) (sym sized)
      ∙ slice-copy_in f.buffer (f.tail * f.object_size) x
          (omega (arith, slot_fits v f.tail v.tail_in))

  slot-write_ne : (i : ℕ) → i ≢ f.tail → slot (write_at_tail f x) i ≡ slot f i
  slot-write_ne i ne =
      slice-copy_in_outside f.buffer (f.tail * f.object_size) x (i * f.object_size) f.object_size
        (omega (arith, slots_apart i f.tail f.object_size ne))

  objects-write : objects (write_at_tail f x) ≡ objects f
  objects-write =
      items-keep (slot f) (slot (write_at_tail f x)) f.size (held f) f.head v.head_in
        (span-lt f.size f.head f.tail v.head_in v.tail_in)
        (λ i p ne. slot-write_ne i (λ e. ne (e ∙ sym (at_tail v))))

begin_pending :
    (f : ObjectFifo) (x : Object)
    → f.is_allocated ≡ true
    → begin_object f x ≡ (false, assert_failure f)
unfolding begin_object allocate
begin_pending f x a = ground arith

module _ {f : ObjectFifo} (v : IsValid f) where
  objects-full : after f.size f.tail ≡ f.head → leb (f.size - 1) (length (objects f)) ≡ true
  objects-full e =
      ground (arith, length-objects f, span-full f.size f.head f.tail v.head_in v.tail_in e)

  objects-room : after f.size f.tail ≢ f.head → leb (f.size - 1) (length (objects f)) ≡ false
  objects-room ne =
      ground (arith, length-objects f, span-not_full f.size f.head f.tail v.head_in v.tail_in ne)

  begin_full :
      (x : Object)
      → f.is_allocated ≡ false
      → after f.size f.tail ≡ f.head
      → begin_object f x ≡ (false, f)
  unfolding begin_object allocate
  begin_full x b e = ground (arith, is_full-true v e)

  begin_room :
      (x : Object)
      → f.is_allocated ≡ false
      → after f.size f.tail ≢ f.head
      → begin_object f x ≡ (true, record (write_at_tail f x) { is_allocated = true })
  unfolding begin_object allocate
  begin_room x b ne = ground (arith, is_full-false v ne)

-- `fd_object_fifo_allocate` with the write grants a slot exactly when none is pending and the
-- queue has room, and the object becomes the pending one.
pub begin_object_refines :
    {f : ObjectFifo} (x : Object)
    → IsValid f
    → length x ≡ f.object_size
    → let (ok, f') = begin_object f x in
      (Reply.granted ok, contents f') ≡ Objects.begin_object (f.size - 1) (contents f) x
unfolding assert_failure Objects.begin_object
begin_object_refines {f} x v sized = elim (Bool-cases f.is_allocated) [
  | inl a ↦ rw (begin_pending f x a) (ground arith)
  | inr b ↦ elim (ℕ_discrete (after f.size f.tail) f.head) [
    | yes e ↦ rw (begin_full v x b e) (ground (arith, objects-full v e))
    | no ne ↦
        rw (begin_room v x b ne)
          (ground (arith, objects-room v ne, objects-write v x sized, slot-write_self v x sized))
  ]
]

commit_some :
    {f : ObjectFifo}
    → IsValid f
    → f.is_allocated ≡ true
    → commit f ≡ record f { tail = after f.size f.tail; is_allocated = false }
unfolding commit
commit_some v a = ground (arith, next_tail-after v)

objects-commit :
    {f : ObjectFifo}
    → IsValid f
    → after f.size f.tail ≢ f.head
    → objects (record f { tail = after f.size f.tail }) ≡ objects f ++ (slot f f.tail ∷ [])
objects-commit {f} v ne = rw (span-after_tail f.size f.head f.tail v.head_in v.tail_in ne) (
    items-snoc (slot f) (slot f) f.size (slot f f.tail) (held f) f.head v.head_in
      (span-lt f.size f.head f.tail v.head_in v.tail_in) (ap (slot f) (at_tail v))
      (λ i p away. refl))

pub commit_refines :
    {f : ObjectFifo} → IsValid f → contents (commit f) ≡ Objects.commit_object (contents f)
unfolding commit assert_failure Objects.commit_object
commit_refines {f} v = elim (Bool-cases f.is_allocated) [
  | inl a ↦ ground (arith, commit_some v a, objects-commit v (v.room a))
  | inr b ↦ ground arith
]

objects_empty : (f : ObjectFifo) → f.head ≡ f.tail → objects f ≡ []
unfolding items
objects_empty f e = rw (e, span_self f.size f.tail) refl

objects_first :
    {f : ObjectFifo}
    → IsValid f
    → f.head ≢ f.tail
    → objects f ≡ slot f f.head ∷ objects (record f { head = after f.size f.head })
unfolding items
objects_first {f} v ne = rw (span-after_head f.size f.head f.tail v.head_in v.tail_in ne)

pub deallocate_some :
    {f : ObjectFifo}
    → IsValid f
    → f.head ≢ f.tail
    → deallocate f ≡ record f { head = after f.size f.head }
unfolding deallocate after
deallocate_some {f} v ne = ground arith

pub deallocate_refines :
    {f : ObjectFifo} → IsValid f → contents (deallocate f) ≡ Objects.drop_object (contents f)
unfolding deallocate is_empty assert_failure Objects.drop_object
deallocate_refines {f} v = elim (ℕ_discrete f.head f.tail) [
  | yes e ↦ ground (arith, objects_empty f e)
  | no ne ↦ ground (arith, objects_first v ne, deallocate_some v ne)
]

head_index :
    {f : ObjectFifo}
    → IsValid f
    → (i : ℕ) → i < held f
    → (f.head + i) % 2 ^ 32 % f.size ≡ place f.size f.head i
unfolding place
head_index {f} v i p = elim (dec_lt (f.head + i) f.size) [
  | yes q ↦ ground (arith, mod-eq_of_lt {n = f.head + i} {m = f.size} q)
  | no q ↦ ground (
    arith,
    in_word,
    below,
    mod-eq-sub-mod {n = f.head + i} {m = f.size} (omega arith),
    mod-eq_of_lt {n = f.head + i - f.size} {m = f.size} (omega (arith, below, v.head_in)),
  )
]
  where
    below : held f < f.size
    below = span-lt f.size f.head f.tail v.head_in v.tail_in

    in_word : (f.head + i) % 2 ^ 32 ≡ f.head + i
    in_word = omega (arith, below, v.head_in, v.small)

-- What the client reads through the pointer that `fd_object_fifo_view` returns.
abbrev pub view_object : ObjectFifo → ℕ → Option Object
view_object f i = Option.map (λ o. slice f.buffer o f.object_size) (view f i)

pub view_refines : {f : ObjectFifo} (i : ℕ) → IsValid f → view_object f i ≡ get_elem? (objects f) i
unfolding view
view_refines {f} i v = elim (dec_lt i (held f)) [
  | yes p ↦ ground (
    arith,
    get_count-held v,
    head_index v i p,
    get_elem?-items (slot f) f.size (held f) f.head i v.head_in
        (span-lt f.size f.head f.tail v.head_in v.tail_in) p,
  )
  | no p ↦
      ground
        (arith, get_count-held v, get_elem?-none (objects f) i (omega (arith, length-objects f)))
]
