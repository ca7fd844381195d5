-- ===== src/Work/Calls.antt =====
-- The calls that run no task keep the queues valid.
use mathlib.Core.Path.{subst}
use firefly_zephyr.Base.{
  ℕ, zero, suc, ◌+◌, ◌<◌, ◌≡◌, refl, sym, ◌∙◌, true, false, inl, inr, Option, none, some, List, [],
  ◌∷◌, ◌++◌, length, length-set, length-append, get_or, set, replicate, ltb, leb, if◌then◌else◌,
  arith,
}
use firefly_zephyr.Work.Types.{
  Arithmetic, queue_limit, task_limit, Task, SubmitResult, queued, WaitResult, waited, Item, Work,
  empty_queue, fd_assert, queue_at,
}
use firefly_zephyr.Work.Queues.{
  initialize, queue_initialize, queue_clear, item_for_task, item_at, new_item, enqueue,
  submit_with_delay, dequeue, cancel_task,
}
use firefly_zephyr.Work.Valid.{
  Distinct, Distinct-snoc, tasks, tasks-append, item_for_task-none, IsQueue, IsValid,
  IsValid-put_items, IsValid-fd_assert, IsQueue-set, IsValid-second, IsValid-if, get_or-set,
}

leb-false : (m n : ℕ) → leb m n ≡ false → n < m
leb-false m n e = ground (arith, e)

module _ {Float : Type 0} (arithmetic : Arithmetic Float) where
  IsValid-enqueue :
      (identifier : ℕ) (items : List (Item Float)) (i : ℕ) (task : Task) (delay : Float)
      (w : Work Float)
      → IsValid w
      → IsQueue items
      → IsValid (enqueue arithmetic identifier items i task delay w).1
  unfolding enqueue
  IsValid-enqueue identifier items i task delay w v q =
      let item = item_at (new_item arithmetic task) items i in
      IsValid-second item.is_queued _ _ (λ _. IsValid-put_items identifier items w v q)
        (λ _. IsValid-put_items identifier _ w v (
          IsQueue-set items i (new_item arithmetic task)
            (record item { is_queued = true; delay = delay }) refl q))

  IsQueue-new :
      (items : List (Item Float)) (task : Task)
      → item_for_task items task ≡ none
      → length items < 8
      → IsQueue items
      → IsQueue (items ++ (new_item arithmetic task ∷ []))
  IsQueue-new items task e p q = record {
    fits = omega (arith, length-append items (new_item arithmetic task ∷ []), p);
    distinct =
        subst (λ t. Distinct t) (sym (tasks-append items (new_item arithmetic task ∷ [])))
          (Distinct-snoc (tasks items) task q.distinct (item_for_task-none items task e));
  }

  IsValid-submit_found :
      (identifier : ℕ) (task : Task) (delay : Float) (w : Work Float) (r : Option ℕ)
      → item_for_task (queue_at identifier w).items task ≡ r
      → IsValid w
      → let items = (queue_at identifier w).items in
        let w' = fd_assert (ltb (length items) task_limit) w in
        IsValid
          (elim r as (λ _. SubmitResult × Work Float) [
            | none ↦
                if leb task_limit (length items)
                then (queued, w')
                else enqueue arithmetic identifier
                    (items ++ (new_item arithmetic task ∷ []))
                    (length items)
                    task
                    delay
                    w'
            | some i ↦ enqueue arithmetic identifier items i task delay w
          ]).1
  IsValid-submit_found identifier task delay w none e v =
      let items = (queue_at identifier w).items in
      let v' = IsValid-fd_assert (ltb (length items) task_limit) w v in
      IsValid-second (leb task_limit (length items)) _ _ (λ _. v')
        (λ c.
          IsValid-enqueue identifier _ (length items) task delay _ v'
            (IsQueue-new items task e (leb-false 8 (length items) c) (v.each identifier)))
  IsValid-submit_found identifier task delay w (some i) e v =
      IsValid-enqueue identifier (queue_at identifier w).items i task delay w v (v.each identifier)

  pub IsValid-submit_with_delay :
      (identifier : ℕ) (task : Task) (delay : Float) (w : Work Float)
      → IsValid w
      → IsValid (submit_with_delay arithmetic identifier task delay w).1
  unfolding submit_with_delay
  IsValid-submit_with_delay identifier task delay w v =
      let w' = fd_assert (ltb identifier queue_limit) w in
      let v' = IsValid-fd_assert (ltb identifier queue_limit) w v in
      IsValid-second (leb queue_limit identifier) _ _ (λ _. v')
        (λ _.
          IsValid-submit_found identifier task delay w'
            (item_for_task (queue_at identifier w').items task) refl v')

  pub IsValid-dequeue :
      (identifier i : ℕ) (task : Task) (w : Work Float)
      → IsValid w
      → IsValid (dequeue arithmetic identifier (queue_at identifier w).items i task w)
  unfolding dequeue
  IsValid-dequeue identifier i task w v =
      let items = (queue_at identifier w).items in
      IsValid-put_items identifier _ w v (
        IsQueue-set items i (new_item arithmetic task)
          (record (item_at (new_item arithmetic task) items i) { is_queued = false }) refl
          (v.each identifier))

  IsValid-cancel_found :
      (identifier : ℕ) (task : Task) (w : Work Float) (r : Option ℕ)
      → IsValid w
      → IsValid
          (elim r as (λ _. WaitResult × Work Float) [
            | none ↦ (waited, w)
            | some i ↦
                (waited, dequeue arithmetic identifier (queue_at identifier w).items i task w)
          ]).1
  IsValid-cancel_found identifier task w none v = v
  IsValid-cancel_found identifier task w (some i) v = IsValid-dequeue identifier i task w v

  pub IsValid-cancel_task :
      (identifier : ℕ) (task : Task) (w : Work Float)
      → IsValid w
      → IsValid (cancel_task arithmetic identifier task w).1
  unfolding cancel_task
  IsValid-cancel_task identifier task w v =
      let w' = fd_assert (ltb identifier queue_limit) w in
      let v' = IsValid-fd_assert (ltb identifier queue_limit) w v in
      IsValid-second (leb queue_limit identifier) _ _ (λ _. v')
        (λ _.
          IsValid-cancel_found identifier task w'
            (item_for_task (queue_at identifier w').items task) v')

module _ {Float : Type 0} where
  all_empty :
      (i : ℕ)
      → IsQueue (get_or (replicate queue_limit (empty_queue {Float = Float})) i empty_queue).items
  all_empty zero = record { fits = omega arith; distinct = tt }
  all_empty (suc zero) = record { fits = omega arith; distinct = tt }
  all_empty (suc (suc zero)) = record { fits = omega arith; distinct = tt }
  all_empty (suc (suc (suc zero))) = record { fits = omega arith; distinct = tt }
  all_empty (suc (suc (suc (suc i)))) = record { fits = omega arith; distinct = tt }

  pub IsValid-initialize : (w : Work Float) → IsValid (initialize w)
  unfolding initialize
  IsValid-initialize w = record { four = refl; counted = omega arith; each = λ i. all_empty i }

  pub IsValid-queue_clear :
      (identifier : ℕ) (w : Work Float) → IsValid w → IsValid (queue_clear identifier w)
  unfolding queue_clear
  IsValid-queue_clear identifier w v =
      IsValid-if (leb queue_limit identifier) _ _ (λ _. v)
        (λ _. IsValid-put_items identifier [] w v record { fits = omega arith; distinct = tt })

  IsValid-configured :
      (limit k : ℕ) (w : Work Float)
      → k < 4
      → IsValid w
      → IsValid (record w {
        queues = set w.queues k (record (queue_at k w) { configured_limit = limit });
        queue_count = k + 1;
      })
  IsValid-configured limit k w p v = record {
    four = length-set w.queues k _ ∙ v.four;
    counted = omega (arith, p);
    each = λ j.
        elim (get_or-set w.queues k (record (queue_at k w) { configured_limit = limit }) j
          empty_queue) [
            | inl e ↦ subst (λ k. IsQueue k.items) (sym e) (v.each k)
            | inr e ↦ subst (λ k. IsQueue k.items) (sym e) (v.each j)
          ];
  }

  pub IsValid-queue_initialize :
      (limit : ℕ) (w : Work Float) → IsValid w → IsValid (queue_initialize limit w).1
  unfolding queue_initialize
  IsValid-queue_initialize limit w v =
      let w' = fd_assert (ltb w.queue_count queue_limit) w in
      let v' = IsValid-fd_assert (ltb w.queue_count queue_limit) w v in
      IsValid-second (leb queue_limit w.queue_count) _ _ (λ _. v')
        (λ c.
          IsValid-configured limit w.queue_count _ (leb-false 4 w.queue_count c)
            (IsValid-fd_assert (leb limit task_limit) w' v'))
