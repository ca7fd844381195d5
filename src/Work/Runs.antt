-- ===== src/Work/Runs.antt =====
-- Every call keeps the queues valid, if the tasks do.
use firefly_zephyr.Base.{
  ℕ, zero, suc, ◌+◌, ◌≤◌, ◌≡◌, refl, ap, ◌∙◌, Bool, false, not, ◌||◌, Option, none, some, length,
  ltb, leb, if◌then◌else◌, arith,
}
use firefly_zephyr.Work.Types.{
  Arithmetic, queue_limit, task_limit, Task, WaitResult, waited, Item, Work, fd_assert, queue_at,
}
use firefly_zephyr.Work.Queues.{
  initialize, queue_initialize, queue_clear, item_for_task, item_at, new_item, submit_with_delay,
  submit, dequeue, cancel_task,
}
use firefly_zephyr.Work.Run.{
  run_task, wait_for_task, process_item, process_loop, impl_process, process, process_all_loop,
  process_all,
}
use firefly_zephyr.Work.Valid.{
  IsValid, IsValid-put_items, IsValid-fd_assert, IsQueue-set, IsValid-second,
}
use firefly_zephyr.Work.Calls.{
  IsValid-initialize, IsValid-queue_clear, IsValid-queue_initialize, IsValid-submit_with_delay,
  IsValid-dequeue, IsValid-cancel_task,
}

ltb-false : (m n : ℕ) → n ≤ m → ltb m n ≡ false
ltb-false m n p = ground (arith, p)

zero_plus : (n : ℕ) → 0 + suc n ≡ suc n
zero_plus n = omega arith

suc_plus : (m n : ℕ) → suc m + n ≡ suc (m + n)
suc_plus m n = omega arith

stays : {A : Type 0} (c : Bool) (a b : A) → c ≡ false → (if c then a else b) ≡ b
stays c a b e = rw e refl

-- The calls of fd_work.h.
pub data Call (Float : Type 0) : Type 0 where
  initializes : Call Float
  initializes_queue : ℕ → Call Float
  clears : ℕ → Call Float
  submits : ℕ → Task → Call Float
  submits_with_delay : ℕ → Task → Float → Call Float
  cancels waits_for : ℕ → Task → Call Float
  processes : ℕ → Float → Call Float
  processes_all : Float → Call Float

unfoldable pub perform :
    {Float : Type 0}
    → Arithmetic Float
    → (Task → Work Float → Work Float)
    → Call Float
    → Work Float
    → Work Float
unfolding initialize queue_initialize queue_clear submit submit_with_delay cancel_task wait_for_task
    process process_all
perform arithmetic run initializes w = initialize w
perform arithmetic run (initializes_queue limit) w = (queue_initialize limit w).1
perform arithmetic run (clears identifier) w = queue_clear identifier w
perform arithmetic run (submits identifier task) w = (submit arithmetic identifier task w).1
perform arithmetic run (submits_with_delay identifier task delay) w =
    (submit_with_delay arithmetic identifier task delay w).1
perform arithmetic run (cancels identifier task) w = (cancel_task arithmetic identifier task w).1
perform arithmetic run (waits_for identifier task) w =
    (wait_for_task arithmetic run identifier task w).1
perform arithmetic run (processes identifier elapsed) w =
    (process arithmetic run identifier elapsed w).1
perform arithmetic run (processes_all elapsed) w = (process_all arithmetic run elapsed w).1

module _ {Float : Type 0} (arithmetic : Arithmetic Float) (run : Task → Work Float → Work Float)
    (keeps : (t : Task) (w : Work Float) → IsValid w → IsValid (run t w)) where
  IsValid-run_task : (t : Task) (w : Work Float) → IsValid w → IsValid (run_task arithmetic run t w)
  IsValid-run_task t w v = keeps t _ record { four = v.four; counted = v.counted; each = v.each }

  IsValid-wait_found :
      (identifier : ℕ) (task : Task) (w : Work Float) (r : Option ℕ)
      → IsValid w
      → let items = (queue_at identifier w).items in
        IsValid
          (elim r as (λ _. WaitResult × Work Float) [
            | none ↦ (waited, w)
            | some i ↦
                let item = item_at (new_item arithmetic task) items i in
                if item.is_queued
                then (
                  waited,
                  run_task arithmetic run item.task (dequeue arithmetic identifier items i task w),
                )
                else (waited, w)
          ]).1
  IsValid-wait_found identifier task w none v = v
  IsValid-wait_found identifier task w (some i) v =
      let item = item_at (new_item arithmetic task) (queue_at identifier w).items i in
      IsValid-second item.is_queued _ _
        (λ _. IsValid-run_task item.task _ (IsValid-dequeue arithmetic identifier i task w v))
        (λ _. v)

  IsValid-wait_for_task :
      (identifier : ℕ) (task : Task) (w : Work Float)
      → IsValid w
      → IsValid (wait_for_task arithmetic run identifier task w).1
  unfolding wait_for_task
  IsValid-wait_for_task identifier task w v =
      let w' = fd_assert (ltb identifier queue_limit) w in
      let v' = IsValid-fd_assert (ltb identifier queue_limit) w v in
      IsValid-second (leb queue_limit identifier) _ _ (λ _. v')
        (λ _.
          IsValid-wait_found identifier task w' (item_for_task (queue_at identifier w').items task)
            v')

  IsValid-process_item :
      (identifier i : ℕ) (d : Item Float) (elapsed : Float) (w : Work Float)
      → IsValid w
      → IsValid
          (process_item arithmetic run identifier i
            (item_at d (queue_at identifier w).items i)
            elapsed
            w).1
  unfolding process_item
  IsValid-process_item identifier i d elapsed w v =
      let items = (queue_at identifier w).items in
      let item = item_at d items i in
      let delay = arithmetic.minus item.delay elapsed in
      IsValid-second (not item.is_queued) _ _ (λ _. v)
        (λ _.
          IsValid-second (arithmetic.at_most_zero delay) _ _
            (λ _. IsValid-run_task item.task _ (
              IsValid-put_items identifier _ w v (
                IsQueue-set items i d (record item { is_queued = false; delay = delay }) refl
                  (v.each identifier))))
            (λ _.
              IsValid-put_items identifier _ w v
                (IsQueue-set items i d (record item { delay = delay }) refl (v.each identifier))))

  IsValid-process_loop :
      (fuel identifier i : ℕ) (elapsed : Float) (any : Bool) (w : Work Float)
      → IsValid w
      → IsValid (process_loop arithmetic run fuel identifier i elapsed any w).1
  unfolding process_loop
  IsValid-process_loop zero identifier i elapsed any w v = v
  IsValid-process_loop (suc fuel) identifier i elapsed any w v =
      IsValid-second (ltb i (length (queue_at identifier w).items)) _ _
        (λ _.
          IsValid-process_loop fuel identifier (i + 1) elapsed _ _
            (IsValid-process_item identifier i _ elapsed w v))
        (λ _. v)

  IsValid-process :
      (identifier : ℕ) (elapsed : Float) (w : Work Float)
      → IsValid w
      → IsValid (process arithmetic run identifier elapsed w).1
  unfolding process impl_process
  IsValid-process identifier elapsed w v =
      let w' = fd_assert (ltb identifier queue_limit) w in
      let v' = IsValid-fd_assert (ltb identifier queue_limit) w v in
      IsValid-second (leb queue_limit identifier) _ _ (λ _. v')
        (λ _. IsValid-process_loop task_limit identifier 0 elapsed false w' v')

  IsValid-process_all_loop :
      (fuel i : ℕ) (elapsed : Float) (any : Bool) (w : Work Float)
      → IsValid w
      → IsValid (process_all_loop arithmetic run fuel i elapsed any w).1
  unfolding process_all_loop impl_process
  IsValid-process_all_loop zero i elapsed any w v = v
  IsValid-process_all_loop (suc fuel) i elapsed any w v =
      IsValid-second (ltb i w.queue_count) _ _
        (λ _.
          IsValid-process_all_loop fuel (i + 1) elapsed _ _
            (IsValid-process_loop task_limit i 0 elapsed false w v))
        (λ _. v)

  -- If the tasks keep the queues valid, so does each call of fd_work.h: there are four queues, of
  -- which at most four are in use, and each has at most 8 items, no two for the same task.
  pub perform-IsValid :
      (c : Call Float) (w : Work Float) → IsValid w → IsValid (perform arithmetic run c w)
  unfolding perform process_all submit
  perform-IsValid initializes w v = IsValid-initialize w
  perform-IsValid (initializes_queue limit) w v = IsValid-queue_initialize limit w v
  perform-IsValid (clears identifier) w v = IsValid-queue_clear identifier w v
  perform-IsValid (submits identifier task) w v =
      IsValid-submit_with_delay arithmetic identifier task arithmetic.zero_float w v
  perform-IsValid (submits_with_delay identifier task delay) w v =
      IsValid-submit_with_delay arithmetic identifier task delay w v
  perform-IsValid (cancels identifier task) w v = IsValid-cancel_task arithmetic identifier task w v
  perform-IsValid (waits_for identifier task) w v = IsValid-wait_for_task identifier task w v
  perform-IsValid (processes identifier elapsed) w v = IsValid-process identifier elapsed w v
  perform-IsValid (processes_all elapsed) w v =
      IsValid-process_all_loop queue_limit 0 elapsed false w v

  -- More rounds than the limit of tasks are never made.
  process_loop_more :
      (fuel more identifier i : ℕ) (elapsed : Float) (any : Bool) (w : Work Float)
      → IsValid w
      → 8 ≤ fuel + i
      → process_loop arithmetic run (fuel + more) identifier i elapsed any w
        ≡ process_loop arithmetic run fuel identifier i elapsed any w
  unfolding process_loop
  process_loop_more zero zero identifier i elapsed any w v p = refl
  process_loop_more zero (suc more) identifier i elapsed any w v p =
      let ends : ltb i (length (queue_at identifier w).items) ≡ false =
        ltb-false i (length (queue_at identifier w).items)
          (omega (arith, p, (v.each identifier).fits)) in
      ap (λ k. process_loop arithmetic run k identifier i elapsed any w) (zero_plus more)
      ∙ stays (ltb i (length (queue_at identifier w).items)) _ _ ends
  process_loop_more (suc fuel) more identifier i elapsed any w v p =
      let items = (queue_at identifier w).items in
      let item = item_at (new_item arithmetic (record { function = 0; context = 0 })) items i in
      let r = process_item arithmetic run identifier i item elapsed w in
      ap (λ k. process_loop arithmetic run k identifier i elapsed any w) (suc_plus fuel more)
      ∙ ap (λ later. if◌then◌else◌ {A = Bool × Work Float} (ltb i (length items)) later (any, w))
          (process_loop_more fuel more identifier (i + 1) elapsed (any || r.0) r.1
            (IsValid-process_item identifier i _ elapsed w v) (omega (arith, p)))

  -- If the tasks keep the queues valid, the loop of `fd_work_queue_impl_process` is over after 8
  -- rounds, also when the tasks that it runs submit others: more rounds give the same.
  pub impl_process_more :
      (more identifier : ℕ) (elapsed : Float) (w : Work Float)
      → IsValid w
      → process_loop arithmetic run (task_limit + more) identifier 0 elapsed false w
        ≡ impl_process arithmetic run identifier elapsed w
  unfolding impl_process
  impl_process_more more identifier elapsed w v =
      process_loop_more task_limit more identifier 0 elapsed false w v (omega arith)
