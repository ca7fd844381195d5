-- ===== src/Work/Run.antt =====
-- The functions that run tasks. What a task does is the parameter `run`.
use firefly_zephyr.Base.{
  ℕ, zero, suc, ◌+◌, Bool, true, false, not, ◌||◌, none, some, [], ◌∷◌, ◌++◌, length, set, ltb, leb,
  if◌then◌else◌,
}
use firefly_zephyr.Work.Types.{
  Arithmetic, queue_limit, task_limit, Task, WaitResult, waited, Item, Work, fd_assert, queue_at,
  put_items,
}
use firefly_zephyr.Work.Queues.{item_for_task, item_at, new_item, dequeue}

module _ {Float : Type 0} (arithmetic : Arithmetic Float)
    (run : Task → Work Float → Work Float) where
  abbrev pub run_task : Task → Work Float → Work Float
  run_task task w = run task (record w { ran = w.ran ++ (task ∷ []) })

  unfoldable pub wait_for_task : ℕ → Task → Work Float → WaitResult × Work Float
  unfolding item_for_task dequeue
  wait_for_task identifier task w =
      let w' = fd_assert (ltb identifier queue_limit) w in
      if leb queue_limit identifier
      then (waited, w')
      else (let items = (queue_at identifier w').items in
          elim (item_for_task items task) [
            | none ↦ (waited, w')
            | some i ↦
                let item = item_at (new_item arithmetic task) items i in
                if item.is_queued
                then (waited, run_task item.task (dequeue arithmetic identifier items i task w'))
                else (waited, w')
          ])

  -- One round: what the item at `i` becomes, and whether work is left.
  unfoldable pub process_item : ℕ → ℕ → Item Float → Float → Work Float → Bool × Work Float
  process_item identifier i item elapsed w =
      let items = (queue_at identifier w).items in
      let delay = arithmetic.minus item.delay elapsed in
      if not item.is_queued
      then (false, w)
      else if arithmetic.at_most_zero delay
      then (
        false,
        run_task item.task (
            put_items identifier (set items i (record item { is_queued = false; delay = delay }))
              w),
      )
      else (true, put_items identifier (set items i (record item { delay = delay })) w)

  -- The count is read in each round, for a task may submit others.
  unfoldable pub process_loop : ℕ → ℕ → ℕ → Float → Bool → Work Float → Bool × Work Float
  unfolding process_item
  process_loop zero identifier i elapsed any_work_left w = (any_work_left, w)
  process_loop (suc fuel) identifier i elapsed any_work_left w =
      let items = (queue_at identifier w).items in
      let item = item_at (new_item arithmetic (record { function = 0; context = 0 })) items i in
      let (left, w') = process_item identifier i item elapsed w in
      let later = process_loop fuel identifier (i + 1) elapsed (any_work_left || left) w' in
      if ltb i (length items) then later else (any_work_left, w)

  unfoldable pub impl_process : ℕ → Float → Work Float → Bool × Work Float
  unfolding process_loop
  impl_process identifier elapsed w = process_loop task_limit identifier 0 elapsed false w

  -- The result of a queue that does not exist is a `fd_work_queue_submit_result_queued`, which is
  -- not 0.
  unfoldable pub process : ℕ → Float → Work Float → Bool × Work Float
  unfolding impl_process
  process identifier elapsed w =
      let w' = fd_assert (ltb identifier queue_limit) w in
      if leb queue_limit identifier then (true, w') else impl_process identifier elapsed w'

  unfoldable pub process_all_loop : ℕ → ℕ → Float → Bool → Work Float → Bool × Work Float
  unfolding impl_process
  process_all_loop zero i elapsed any_work_left w = (any_work_left, w)
  process_all_loop (suc fuel) i elapsed any_work_left w =
      let (left, w') = impl_process i elapsed w in
      let later = process_all_loop fuel (i + 1) elapsed (any_work_left || left) w' in
      if ltb i w.queue_count then later else (any_work_left, w)

  unfoldable pub process_all : Float → Work Float → Bool × Work Float
  unfolding process_all_loop
  process_all elapsed w = process_all_loop queue_limit 0 elapsed false w
