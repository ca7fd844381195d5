-- ===== src/ObjectFifo.antt =====
-- subsys/base/src/fd_object_fifo.c and include/fd_object_fifo.h: a ring of objects of one size.
-- A pointer into the buffer is an offset, and `none` the null pointer. Words are 32 bits wide.
pub mod Objects
pub mod Refine
pub mod Client
mod Tests
use firefly_zephyr.Base.{
  ℕ, ◌+◌, ◌-◌, ◌*◌, ◌/◌, ◌%◌, ◌^◌, Bool, true, false, not, Option, none, some, List, [], leb, ◌==◌,
  if◌then◌else◌,
}

-- `fd_object_fifo_t`, and the count of failed assertions that fd_assert.c keeps: a failed
-- assertion is counted, and the code goes on.
pub record ObjectFifo : Type 0 where
  pub buffer : List ℕ
  pub object_size : ℕ
  pub size : ℕ
  pub head : ℕ
  pub tail : ℕ
  pub is_allocated : Bool
  pub asserts : ℕ

unfoldable pub assert_failure : ObjectFifo → ObjectFifo
assert_failure f = record f { asserts = (f.asserts + 1) % 2 ^ 32 }

unfoldable pub fd_assert : Bool → ObjectFifo → ObjectFifo
unfolding assert_failure
fd_assert condition f = if condition then f else assert_failure f

-- The last argument is the count of failed assertions before. A call with a size has a positive
-- `object_size`: the code divides by it.
unfoldable pub initialize : List ℕ → ℕ → ℕ → ℕ → ObjectFifo
unfolding fd_assert
initialize buffer size object_size asserts =
    if size == 0
    then record {
      buffer = [];
      object_size = 0;
      size = 0;
      head = 0;
      tail = 0;
      is_allocated = false;
      asserts = asserts;
    }
    else fd_assert (leb 1 (size / object_size % 2 ^ 32)) (record {
      buffer = buffer;
      object_size = object_size;
      size = size / object_size % 2 ^ 32;
      head = 0;
      tail = 0;
      is_allocated = false;
      asserts = asserts;
    })

unfoldable pub flush : ObjectFifo → ObjectFifo
flush f = record f { head = 0; tail = 0 }

unfoldable pub get_count : ObjectFifo → ℕ
get_count f =
    if leb f.head f.tail
    then (f.tail + 2 ^ 32 - f.head) % 2 ^ 32
    else (f.size + 2 ^ 32 - f.head + f.tail) % 2 ^ 32

unfoldable pub is_empty : ObjectFifo → Bool
is_empty f = f.head == f.tail

unfoldable pub is_full : ObjectFifo → Bool
unfolding get_count
is_full f = leb ((f.size + 2 ^ 32 - 1) % 2 ^ 32) (get_count f)

unfoldable pub allocate : ObjectFifo → Option ℕ × ObjectFifo
unfolding assert_failure is_full
allocate f =
    if f.is_allocated
    then (none, assert_failure f)
    else if is_full f
    then (none, f)
    else (some (f.tail * f.object_size), record f { is_allocated = true })

unfoldable pub get_next_tail : ObjectFifo → ℕ
get_next_tail f =
    let next_tail = (f.tail + 1) % 2 ^ 32 in if leb f.size next_tail then 0 else next_tail

unfoldable pub commit : ObjectFifo → ObjectFifo
unfolding assert_failure get_next_tail
commit f =
    if not f.is_allocated
    then assert_failure f
    else record f { tail = get_next_tail f; is_allocated = false }

unfoldable pub view : ObjectFifo → ℕ → Option ℕ
unfolding get_count
view f index =
    if leb (get_count f) index
    then none
    else some ((f.head + index) % 2 ^ 32 % f.size * f.object_size)

unfoldable pub deallocate : ObjectFifo → ObjectFifo
unfolding assert_failure is_empty
deallocate f =
    if is_empty f
    then assert_failure f
    else let head = (f.head + 1) % 2 ^ 32 in record f { head = if leb f.size head then 0 else head }
