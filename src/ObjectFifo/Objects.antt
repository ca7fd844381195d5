-- ===== src/ObjectFifo/Objects.antt =====
-- What `fd_object_fifo_t` promises its clients: a first-in first-out queue of at most `cap`
-- objects, one of which may stand allocated behind the committed ones. A call out of turn is
-- counted as a failed assertion and changes nothing else.
use firefly_zephyr.Base.{
  ℕ, ◌+◌, ◌%◌, ◌^◌, Bool, true, false, Option, none, some, List, [], ◌∷◌, ◌++◌, leb, length,
  get_elem?, if◌then◌else◌,
}

abbrev pub Object : Type 0
Object = List ℕ

-- A client's calls. `begin` is `allocate`, and writing the object if there is room.
pub data Op : Type 0 where
  begin : Object → Op
  commit deallocate get_count : Op
  view : ℕ → Op

pub data Reply : Type 0 where
  granted : Bool → Reply
  done : Reply
  count : ℕ → Reply
  seen : Option Object → Reply

pub record Objects : Type 0 where
  pub queue : List Object
  pub pending : Option Object
  pub asserts : ℕ

unfoldable pub refuse : Objects → Objects
refuse s = record s { asserts = (s.asserts + 1) % 2 ^ 32 }

unfoldable pub begin_object : ℕ → Objects → Object → Reply × Objects
unfolding refuse
begin_object cap s x = elim (s.pending) [
  | some y ↦ (granted false, refuse s)
  | none ↦
      if leb cap (length s.queue)
      then (granted false, s)
      else (granted true, record s { pending = some x })
]

unfoldable pub commit_object : Objects → Objects
unfolding refuse
commit_object s = elim (s.pending) [
  | none ↦ refuse s
  | some x ↦ record s { queue = s.queue ++ (x ∷ []); pending = none }
]

unfoldable pub drop_object : Objects → Objects
unfolding refuse
drop_object s = elim (s.queue) [ [] ↦ refuse s | x ∷ q ↦ record s { queue = q } ]

unfoldable pub step : ℕ → Objects → Op → Reply × Objects
unfolding begin_object commit_object drop_object
step cap s (begin x) = begin_object cap s x
step cap s commit = (done, commit_object s)
step cap s deallocate = (done, drop_object s)
step cap s get_count = (count (length s.queue), s)
step cap s (view i) = (seen (get_elem? s.queue i), s)

unfoldable pub run : ℕ → Objects → List Op → List Reply
run cap s [] = []
run cap s (op ∷ ops) = let (r, s') = step cap s op in r ∷ run cap s' ops
