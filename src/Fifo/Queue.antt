-- ===== src/Fifo/Queue.antt =====
-- What `fd_fifo_t` promises its clients: a first-in first-out queue of bytes that holds at most
-- `cap` of them.
use firefly_zephyr.Base.{
  ℕ, Bool, true, false, Option, none, some, List, [], ◌∷◌, ◌++◌, leb, length, if◌then◌else◌,
}

-- A client's calls, and what it sees of each.
pub data Op : Type 0 where
  put : ℕ → Op
  get flush is_empty get_count : Op

pub data Reply : Type 0 where
  accepted : Bool → Reply
  received : Option ℕ → Reply
  flushed : Reply
  empty : Bool → Reply
  count : ℕ → Reply

abbrev pub Queue : Type 0
Queue = List ℕ

abbrev pub is_nil : Queue → Bool
is_nil [] = true
is_nil (x ∷ q) = false

unfoldable pub take_first : Queue → Option ℕ × Queue
take_first [] = (none, [])
take_first (x ∷ q) = (some x, q)

unfoldable pub add_last : ℕ → Queue → ℕ → Bool × Queue
add_last cap q x = if leb cap (length q) then (false, q) else (true, q ++ (x ∷ []))

unfoldable pub step : ℕ → Queue → Op → Reply × Queue
unfolding take_first add_last
step cap q (put x) = let (ok, q') = add_last cap q x in (accepted ok, q')
step cap q get = let (byte, q') = take_first q in (received byte, q')
step cap q flush = (flushed, [])
step cap q is_empty = (empty (is_nil q), q)
step cap q get_count = (count (length q), q)

unfoldable pub run : ℕ → Queue → List Op → List Reply
run cap q [] = []
run cap q (op ∷ ops) = let (r, q') = step cap q op in r ∷ run cap q' ops
