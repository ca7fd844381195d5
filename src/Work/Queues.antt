-- ===== src/Work/Queues.antt =====
-- The functions that fill queues and empty them.
use firefly_zephyr.Base.{
  ℕ, suc, ◌+◌, true, false, Option, none, some, List, [], ◌∷◌, ◌++◌, length, get_or, set, replicate,
  ltb, leb, if◌then◌else◌,
}
use firefly_zephyr.Work.Types.{
  Arithmetic, queue_limit, task_limit, Task, SubmitResult, queued_already, queued, WaitResult,
  waited, Item, Work, same_task, empty_queue, fd_assert, queue_at, put_items,
}

module _ {Float : Type 0} where
  unfoldable pub initialize : Work Float → Work Float
  initialize w = record w { queues = replicate queue_limit empty_queue; queue_count = 0 }

  -- The identifier, and what becomes of the queues.
  unfoldable pub queue_initialize : ℕ → Work Float → ℕ × Work Float
  queue_initialize configured_limit w =
      let identifier = w.queue_count in
      let w' = fd_assert (ltb identifier queue_limit) w in
      if leb queue_limit identifier
      then (identifier, w')
      else (let w'' = fd_assert (leb configured_limit task_limit) w' in
          let impl = record (queue_at identifier w'') { configured_limit = configured_limit } in
          (
            identifier,
            record w'' { queues = set w''.queues identifier impl; queue_count = identifier + 1 },
          ))

  unfoldable pub queue_clear : ℕ → Work Float → Work Float
  queue_clear identifier w = if leb queue_limit identifier then w else put_items identifier [] w

  -- The index of the item.
  unfoldable pub item_for_task : List (Item Float) → Task → Option ℕ
  item_for_task [] task = none
  item_for_task (item ∷ items) task =
      let later = item_for_task items task in
      if same_task item.task task
      then some 0
      else (elim later [ none ↦ none | some i ↦ some (suc i) ])

  -- The item at an index, which is below the count.
  abbrev pub item_at : Item Float → List (Item Float) → ℕ → Item Float
  item_at d items i = get_or items i d

module _ {Float : Type 0} (arithmetic : Arithmetic Float) where
  abbrev pub new_item : Task → Item Float
  new_item task = record { task = task; is_queued = false; delay = arithmetic.zero_float }

  -- What is done with the item found or made.
  unfoldable pub enqueue :
      ℕ → List (Item Float) → ℕ → Task → Float → Work Float → SubmitResult × Work Float
  enqueue identifier items i task delay w =
      let item = item_at (new_item task) items i in
      if item.is_queued then (queued_already, put_items identifier items w) else (
        queued,
        put_items identifier (set items i (record item { is_queued = true; delay = delay })) w,
      )

  unfoldable pub submit_with_delay : ℕ → Task → Float → Work Float → SubmitResult × Work Float
  unfolding item_for_task enqueue
  submit_with_delay identifier task delay w =
      let w' = fd_assert (ltb identifier queue_limit) w in
      if leb queue_limit identifier
      then (queued, w')
      else (let items = (queue_at identifier w').items in
          let w'' = fd_assert (ltb (length items) task_limit) w' in
          elim (item_for_task items task) [
            | none ↦
                if leb task_limit (length items)
                then (queued, w'')
                else enqueue identifier (items ++ (new_item task ∷ [])) (length items) task delay
                    w''
            | some i ↦ enqueue identifier items i task delay w'
          ])

  unfoldable pub submit : ℕ → Task → Work Float → SubmitResult × Work Float
  unfolding submit_with_delay
  submit identifier task w = submit_with_delay identifier task arithmetic.zero_float w

  unfoldable pub dequeue : ℕ → List (Item Float) → ℕ → Task → Work Float → Work Float
  dequeue identifier items i task w =
      put_items identifier
        (set items i (record (item_at (new_item task) items i) { is_queued = false })) w

  unfoldable pub cancel_task : ℕ → Task → Work Float → WaitResult × Work Float
  unfolding item_for_task dequeue
  cancel_task identifier task w =
      let w' = fd_assert (ltb identifier queue_limit) w in
      if leb queue_limit identifier
      then (waited, w')
      else (let items = (queue_at identifier w').items in
          elim (item_for_task items task) [
            | none ↦ (waited, w')
            | some i ↦ (waited, dequeue identifier items i task w')
          ])
