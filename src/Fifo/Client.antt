-- ===== src/Fifo/Client.antt =====
-- Any sequence of calls on a ring, against the same calls on the queue.
use firefly_zephyr.Base.{ℕ, ◌-◌, ◌≤◌, ◌<◌, ◌^◌, ◌≡◌, refl, ap, List, [], ◌∷◌, arith, length}
use firefly_zephyr.Base.Ring.{items, span_self}
use firefly_zephyr.Fifo.{Fifo, initialize, flush, is_empty, get_count, get, put}
use firefly_zephyr.Fifo.Queue
use firefly_zephyr.Fifo.Queue.{Op, Reply, is_nil}
use firefly_zephyr.Fifo.Refine.{
  IsValid, contents, length-contents, get_count-held, get-IsValid, put-IsValid, get_refines,
  put_refines, size-get, size-put, contents_empty, contents-get,
}
use native.Mathlib.Decide.{ℕ_discrete}

-- One call, with what the client sees of it.
unfoldable pub call : Fifo → Op → Reply × Fifo
unfolding get put flush is_empty get_count
call f (Op.put x) = let (ok, f') = put f x in (Reply.accepted ok, f')
call f Op.get = let (byte, f') = get f in (Reply.received byte, f')
call f Op.flush = (Reply.flushed, flush f)
call f Op.is_empty = (Reply.empty (is_empty f), f)
call f Op.get_count = (Reply.count (get_count f), f)

unfoldable pub run : Fifo → List Op → List Reply
unfolding call
run f [] = []
run f (op ∷ ops) = let (r, f') = call f op in r ∷ run f' ops

pub initialize-IsValid :
    (buffer : List ℕ) (size : ℕ)
    → 0 < size
    → size ≤ length buffer
    → size < 2 ^ 32
    → IsValid (initialize buffer size)
unfolding initialize
initialize-IsValid buffer size p q r = omega arith

flush-IsValid : {f : Fifo} → IsValid f → IsValid (flush f)
unfolding flush
flush-IsValid v = omega (arith, v.stored)

contents-initialize : (buffer : List ℕ) (size : ℕ) → contents (initialize buffer size) ≡ []
unfolding initialize items
contents-initialize buffer size = rw (span_self size 0) refl

contents-flush : (f : Fifo) → contents (flush f) ≡ []
unfolding flush items
contents-flush f = rw (span_self f.size 0) refl

is_empty-is_nil : {f : Fifo} → IsValid f → is_empty f ≡ is_nil (contents f)
unfolding is_empty
is_empty-is_nil {f} v = elim (ℕ_discrete f.head f.tail) [
  | yes e ↦ rw (contents_empty f e) (ground arith)
  | no ne ↦ rw (contents-get v ne) (ground arith)
]

-- Each of `put`, `get`, `flush`, `is_empty` and `get_count` keeps a byte ring valid: its buffer
-- holds `size` bytes, a number of 32 bits, and both indices are below `size`.
pub call-IsValid : {f : Fifo} (op : Op) → IsValid f → IsValid (call f op).1
unfolding call
call-IsValid (Op.put x) v = put-IsValid x v
call-IsValid Op.get v = get-IsValid v
call-IsValid Op.flush v = flush-IsValid v
call-IsValid Op.is_empty v = v
call-IsValid Op.get_count v = v

size-call : (f : Fifo) (op : Op) → (call f op).1.size ≡ f.size
unfolding call flush
size-call f (Op.put x) = size-put f x
size-call f Op.get = size-get f
size-call f Op.flush = refl
size-call f Op.is_empty = refl
size-call f Op.get_count = refl

-- Each call returns what the queue returns and leaves the ring holding what the queue holds.
pub call_refines :
    {f : Fifo} (op : Op)
    → IsValid f
    → let (r, f') = call f op in (r, contents f') ≡ Queue.step (f.size - 1) (contents f) op
unfolding call Queue.step
call_refines (Op.put x) v = ap (λ p. (Reply.accepted p.0, p.1)) (put_refines x v)
call_refines Op.get v = ap (λ p. (Reply.received p.0, p.1)) (get_refines v)
call_refines {f} Op.flush v = rw (contents-flush f) refl
call_refines Op.is_empty v = rw (is_empty-is_nil v) refl
call_refines {f} Op.get_count v = rw (get_count-held v, length-contents f) refl

-- A valid byte ring with a buffer of `size` bytes cannot be told from a queue of at most `size -
-- 1` bytes by any sequence of `put`, `get`, `flush`, `is_empty` and `get_count`, whatever it
-- holds.
pub run_refines_queue :
    (ops : List Op) {f : Fifo} → IsValid f → run f ops ≡ Queue.run (f.size - 1) (contents f) ops
unfolding run Queue.run
run_refines_queue [] v = refl
run_refines_queue (op ∷ ops) {f} v =
    rw (run_refines_queue ops (call-IsValid op v), ← call_refines op v, size-call)
