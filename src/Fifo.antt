-- ===== src/Fifo.antt =====
-- subsys/base/src/fd_fifo.c and include/fd_fifo.h: the byte ring `fd_fifo_t`. `size_t` and
-- `uint32_t` are 32 bits wide. A function that updates `*fifo` returns the new ring.
pub mod Queue
pub mod Refine
pub mod Client
mod Tests
use firefly_zephyr.Base.{
  ℕ, ◌+◌, ◌-◌, ◌%◌, ◌^◌, Bool, true, false, not, Option, none, some, List, leb, ◌==◌, if◌then◌else◌,
  get_or, set,
}

-- `fd_fifo_t`
pub record Fifo : Type 0 where
  pub buffer : List ℕ
  pub size : ℕ
  pub head : ℕ
  pub tail : ℕ

unfoldable pub initialize : List ℕ → ℕ → Fifo
initialize buffer size = record { buffer = buffer; size = size; head = 0; tail = 0 }

unfoldable pub flush : Fifo → Fifo
flush f = record f { head = 0; tail = 0 }

unfoldable pub is_empty : Fifo → Bool
is_empty f = f.head == f.tail

unfoldable pub get_count : Fifo → ℕ
get_count f =
    if leb f.head f.tail
    then (f.tail + 2 ^ 32 - f.head) % 2 ^ 32
    else (f.size + 2 ^ 32 - f.head + f.tail) % 2 ^ 32

-- The step of `head` and of `tail`: `x + 1`, and 0 from `size` on.
abbrev pub next_index : ℕ → ℕ → ℕ
next_index size x = let y = (x + 1) % 2 ^ 32 in if leb size y then 0 else y

-- The option is what goes through `*byte`; `none` is the result `false`.
unfoldable pub get : Fifo → Option ℕ × Fifo
get f =
    if not (f.head == f.tail)
    then (some (get_or f.buffer f.head 0), record f { head = next_index f.size f.head })
    else (none, f)

-- The Boolean is the result: `false` when the byte was dropped.
unfoldable pub put : Fifo → ℕ → Bool × Fifo
put f byte =
    if not (next_index f.size f.tail == f.head)
    then (true, record f { buffer = set f.buffer f.tail byte; tail = next_index f.size f.tail })
    else (false, f)
