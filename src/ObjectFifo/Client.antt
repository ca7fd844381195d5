-- ===== src/ObjectFifo/Client.antt =====
-- Any sequence of calls on an object ring, against the same calls on the queue of objects.
use native.Mathlib.Nat.{div-add-mod}
use native.Mathlib.Decide.{ℕ_discrete}
use firefly_zephyr.Base.{
  ℕ, ◌-◌, ◌*◌, ◌/◌, ◌^◌, ◌≤◌, ◌<◌, ◌≡◌, refl, ap, ◌≢◌, false, none, List, [], ◌∷◌, arith, length,
}
use firefly_zephyr.Base.Bytes.{length-copy_in}
use firefly_zephyr.Base.Ring.{after, after-lt, items, span_self}
use firefly_zephyr.ObjectFifo.{
  ObjectFifo, initialize, get_count, allocate, commit, view, deallocate, assert_failure,
}
use firefly_zephyr.ObjectFifo.Objects
use firefly_zephyr.ObjectFifo.Objects.{Object, Objects, Op, Reply}
use firefly_zephyr.ObjectFifo.Refine.{
  IsValid, begin_object, view_object, contents, length-objects, get_count-held, next_tail-after,
  is_full-true, is_full-false, begin_object_refines, commit_refines, deallocate_refines,
  deallocate_some, view_refines,
}

-- One call, with what the client sees of it.
unfoldable pub call : ObjectFifo → Op → Reply × ObjectFifo
unfolding begin_object allocate commit deallocate get_count view
call f (Op.begin x) = let (ok, f') = begin_object f x in (Reply.granted ok, f')
call f Op.commit = (Reply.done, commit f)
call f Op.deallocate = (Reply.done, deallocate f)
call f Op.get_count = (Reply.count (get_count f), f)
call f (Op.view i) = (Reply.seen (view_object f i), f)

unfoldable pub run : ObjectFifo → List Op → List Reply
unfolding call
run f [] = []
run f (op ∷ ops) = let (r, f') = call f op in r ∷ run f' ops

-- Each object written has the size that the ring was made for.
abbrev pub IsSized : ℕ → List Op → Type 0
IsSized n [] = Unit
IsSized n (Op.begin x ∷ ops) = (length x ≡ n) × IsSized n ops
IsSized n (op ∷ ops) = IsSized n ops

div_mul_le : (a b : ℕ) → a / b * b ≤ a
div_mul_le a b = omega (arith, div-add-mod a b)

div_pos : (a b : ℕ) → 0 < b → b ≤ a → 0 < a / b
div_pos a b p q = grind (arith, div-add-mod a b)

initialize_lem :
    (buffer : List ℕ) (size object_size asserts : ℕ)
    → 0 < object_size
    → object_size ≤ size
    → size ≤ 2 ^ 31
    → initialize buffer size object_size asserts ≡ record {
      buffer = buffer;
      object_size = object_size;
      size = size / object_size;
      head = 0;
      tail = 0;
      is_allocated = false;
      asserts = asserts;
    }
unfolding initialize
initialize_lem buffer size object_size asserts p q s = ground (arith, div_pos size object_size p q)

-- A ring that `fd_object_fifo_initialize` makes over a buffer of at least `size` bytes, at most 2
-- ^ 31, for objects of which one at least fits, is valid, empty, and counts no new failed
-- assertion.
pub initialize_empty-IsValid :
    (buffer : List ℕ) (size object_size asserts : ℕ)
    → 0 < object_size
    → object_size ≤ size
    → size ≤ length buffer
    → size ≤ 2 ^ 31
    → let f = initialize buffer size object_size asserts in
      IsValid f × (contents f ≡ record { queue = []; pending = none; asserts = asserts })
unfolding items
initialize_empty-IsValid buffer size object_size asserts p q r s =
    rw (initialize_lem buffer size object_size asserts p q s) (
      record {
        stored = omega (arith, div_mul_le size object_size);
        small = omega arith;
        head_in = div_pos size object_size p q;
        tail_in = div_pos size object_size p q;
        room = λ a. cc;
      },
      rw (span_self (size / object_size) 0) refl,
    )

begin_object-IsValid : {f : ObjectFifo} (x : Object) → IsValid f → IsValid (begin_object f x).1
unfolding begin_object allocate assert_failure
begin_object-IsValid {f} x v = elim (ℕ_discrete (after f.size f.tail) f.head) [
  | yes e ↦ ground (arith, is_full-true v e, v.room)
  | no ne ↦
      ground (arith, is_full-false v ne, v.room, length-copy_in f.buffer (f.tail * f.object_size) x)
]

after_injective : (size h t : ℕ) → h < size → t < size → h ≢ t → after size t ≢ after size h
unfolding after
after_injective size h t p q ne = ground arith

commit-IsValid : {f : ObjectFifo} → IsValid f → IsValid (commit f)
unfolding commit assert_failure
commit-IsValid {f} v = ground (arith, next_tail-after v, after-lt f.size f.tail, v.room)

deallocate-IsValid : {f : ObjectFifo} → IsValid f → IsValid (deallocate f)
unfolding deallocate assert_failure
deallocate-IsValid {f} v = elim (ℕ_discrete f.head f.tail) [
  | yes e ↦ ground (arith, v.room)
  | no ne ↦ rw (deallocate_some v ne) (record {
    stored = v.stored;
    small = v.small;
    head_in = after-lt f.size f.head v.head_in;
    tail_in = v.tail_in;
    room = λ a. after_injective f.size f.head f.tail v.head_in v.tail_in ne;
  })
]

-- Each call that allocates and writes, commits, views, deallocates or counts keeps an object ring
-- valid: the objects fit its buffer, both indices are below the number of slots, and while an
-- object is allocated there is room to commit it.
pub call_keeps-IsValid : {f : ObjectFifo} (op : Op) → IsValid f → IsValid (call f op).1
unfolding call
call_keeps-IsValid (Op.begin x) v = begin_object-IsValid x v
call_keeps-IsValid Op.commit v = commit-IsValid v
call_keeps-IsValid Op.deallocate v = deallocate-IsValid v
call_keeps-IsValid Op.get_count v = v
call_keeps-IsValid (Op.view i) v = v

-- No call changes what the ring was made for.
call-shape :
    (f : ObjectFifo) (op : Op)
    → ((call f op).1.size ≡ f.size) × ((call f op).1.object_size ≡ f.object_size)
unfolding call begin_object allocate commit deallocate assert_failure
call-shape f (Op.begin x) = ground arith
call-shape f Op.commit = ground arith
call-shape f Op.deallocate = ground arith
call-shape f Op.get_count = ground arith
call-shape f (Op.view i) = ground arith

-- Each call returns what the queue returns and leaves the ring holding what the queue holds.
pub call_refines :
    {f : ObjectFifo} (op : Op)
    → IsValid f
    → IsSized f.object_size (op ∷ [])
    → let (r, f') = call f op in (r, contents f') ≡ Objects.step (f.size - 1) (contents f) op
unfolding call Objects.step
call_refines (Op.begin x) v s = begin_object_refines x v s.0
call_refines Op.commit v s = ap (λ o. (Reply.done, o)) (commit_refines v)
call_refines Op.deallocate v s = ap (λ o. (Reply.done, o)) (deallocate_refines v)
call_refines {f} Op.get_count v s = rw (get_count-held v, length-objects f) refl
call_refines (Op.view i) v s = rw (view_refines i v) refl

IsSized-split :
    (n : ℕ) (op : Op) (ops : List Op) → IsSized n (op ∷ ops) → IsSized n (op ∷ []) × IsSized n ops
IsSized-split n (Op.begin x) ops s = ((s.0, tt), s.1)
IsSized-split n Op.commit ops s = (tt, s)
IsSized-split n Op.deallocate ops s = (tt, s)
IsSized-split n Op.get_count ops s = (tt, s)
IsSized-split n (Op.view i) ops s = (tt, s)

-- A valid object ring cannot be told from a queue of at most `size - 1` objects, one of which may
-- stand allocated behind the others, by any sequence of calls that allocate and write, commit,
-- view, deallocate and count, if each object written has the object size of the ring.
pub run_refines_objects :
    (ops : List Op) {f : ObjectFifo}
    → IsValid f
    → IsSized f.object_size ops
    → run f ops ≡ Objects.run (f.size - 1) (contents f) ops
unfolding run Objects.run
run_refines_objects [] v s = refl
run_refines_objects (op ∷ ops) {f} v s =
    let (one, rest) = IsSized-split f.object_size op ops s in
    rw (
      run_refines_objects ops (call_keeps-IsValid op v) (rw ((call-shape f op).1) rest),
      ← call_refines op v one,
      (call-shape f op).0,
    )
