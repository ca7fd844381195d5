-- ===== src/Work/Submission.antt =====
-- A submitted task is queued, unless its queue has no room for it.
use mathlib.Core.Path.{subst}
use firefly_zephyr.Base.{
  ℕ, ◌≤◌, ◌<◌, ◌≡◌, refl, sym, ap, ◌∙◌, Bool, true, false, ◌⊎◌, inl, inr, Option, none, some, List,
  [], ◌∷◌, ◌++◌, length, get_or-set_self, set, ltb, leb, if◌then◌else◌, arith,
}
use firefly_zephyr.Work.Types.{
  Arithmetic, queue_limit, task_limit, Task, SubmitResult, queued, Item, Work, fd_assert, queue_at,
  put_items,
}
use firefly_zephyr.Work.Queues.{item_for_task, item_at, new_item, enqueue, submit_with_delay}
use firefly_zephyr.Work.Valid.{tasks-set, fd_assert-queues}
use firefly_zephyr.Work.Stage.{queue_at-put_items}
use firefly_zephyr.Work.Lookup.{
  leb-true, Queued, at, item_for_task-tasks, item_for_task-snoc, item_for_task-lt,
}

module _ {Float : Type 0} (arithmetic : Arithmetic Float) (identifier : ℕ) (task : Task)
    (delay : Float) where
  -- The items, with one of them queued.
  abbrev marked : List (Item Float) → ℕ → List (Item Float)
  marked items i =
      set items i
        (record (item_at (new_item arithmetic task) items i) { is_queued = true; delay = delay })

  marked-Queued :
      (items : List (Item Float)) (i : ℕ)
      → item_for_task items task ≡ some i
      → Queued task (marked items i)
  marked-Queued items i e =
      let item = record (item_at (new_item arithmetic task) items i) {
        is_queued = true;
        delay = delay;
      } in
      at i item
        (item_for_task-tasks (marked items i) items task
            (tasks-set items i (new_item arithmetic task) item refl)
          ∙ e)
        (new_item arithmetic task)
        (get_or-set_self items i item (new_item arithmetic task) (item_for_task-lt items task i e))
        refl

  asserted : (c : Bool) (w : Work Float) → c ≡ true → fd_assert c w ≡ w
  asserted true w e = refl
  asserted false w e = cc

  other : {A : Type 0} (c : Bool) (a b : A) → c ≡ false → (if c then a else b) ≡ b
  other c a b e = rw e refl

  kept_items :
      (items : List (Item Float)) (w : Work Float)
      → identifier < length w.queues
      → Queued task items
      → Queued task (queue_at identifier (put_items identifier items w)).items
  kept_items items w p q =
      subst (λ k. Queued task k.items) (sym (queue_at-put_items identifier items w p)) q

  either :
      (c : Bool) (u v : SubmitResult × Work Float)
      → (c ≡ true → Queued task (queue_at identifier u.1).items)
      → (c ≡ false → Queued task (queue_at identifier v.1).items)
      → Queued task
          (queue_at identifier (if◌then◌else◌ {A = SubmitResult × Work Float} c u v).1).items
  either true u v f g = f refl
  either false u v f g = g refl

  dropped_or :
      (D : Work Float → Type 0) (c : Bool) (u v : SubmitResult × Work Float)
      → (c ≡ true → D u.1)
      → Queued task (queue_at identifier v.1).items
      → let r = if◌then◌else◌ {A = SubmitResult × Work Float} c u v in
        Queued task (queue_at identifier r.1).items ⊎ D r.1
  dropped_or D true u v f g = inr (f refl)
  dropped_or D false u v f g = inl g

  enqueue-Queued :
      (items : List (Item Float)) (i : ℕ) (w : Work Float)
      → identifier < length w.queues
      → item_for_task items task ≡ some i
      → Queued task
          (queue_at identifier (enqueue arithmetic identifier items i task delay w).1).items
  unfolding enqueue
  enqueue-Queued items i w p e =
      either (item_at (new_item arithmetic task) items i).is_queued _ _
        (λ c.
          kept_items items w p
            (at i (item_at (new_item arithmetic task) items i) e (new_item arithmetic task) refl c))
        (λ _. kept_items (marked items i) w p (marked-Queued items i e))

  -- What is done with the result of the search.
  found : Work Float → Option ℕ → SubmitResult × Work Float
  found w r =
      let items = (queue_at identifier w).items in
      let w' = fd_assert (ltb (length items) task_limit) w in
      elim r [
        | none ↦
            if leb task_limit (length items)
            then (queued, w')
            else enqueue arithmetic identifier (items ++ (new_item arithmetic task ∷ []))
                (length items) task delay w'
        | some i ↦ enqueue arithmetic identifier items i task delay w
      ]

  submit_with_delay-found :
      (w : Work Float)
      → ltb identifier queue_limit ≡ true
      → leb queue_limit identifier ≡ false
      → submit_with_delay arithmetic identifier task delay w
        ≡ found w (item_for_task (queue_at identifier w).items task)
  unfolding submit_with_delay found
  submit_with_delay-found w e e' =
      ap
        (λ (u : Work Float).
          if◌then◌else◌ {A = SubmitResult × Work Float} (leb queue_limit identifier) (queued, u)
            (found u (item_for_task (queue_at identifier u).items task)))
        (asserted (ltb identifier queue_limit) w e)
      ∙ other (leb queue_limit identifier) _ _ e'

  -- No room for a task that the queue does not know.
  pub record Dropped (w : Work Float) (after : Work Float) : Type 0 where
    pub no_room : 8 ≤ length (queue_at identifier w).items
    pub unknown : item_for_task (queue_at identifier w).items task ≡ none
    pub same_queues : after.queues ≡ w.queues

  found-Queued :
      (w : Work Float) (r : Option ℕ)
      → identifier < length w.queues
      → item_for_task (queue_at identifier w).items task ≡ r
      → Queued task (queue_at identifier (found w r).1).items ⊎ Dropped w (found w r).1
  unfolding found
  found-Queued w (some i) p e = inl (enqueue-Queued (queue_at identifier w).items i w p e)
  found-Queued w none p e =
      let items = (queue_at identifier w).items in
      let w' = fd_assert (ltb (length items) task_limit) w in
      dropped_or (Dropped w) (leb task_limit (length items)) _ _
        (λ c. record {
          no_room = leb-true 8 (length items) c;
          unknown = e;
          same_queues = fd_assert-queues (ltb (length items) task_limit) w;
        })
        (enqueue-Queued (items ++ (new_item arithmetic task ∷ [])) (length items) w'
          (subst (λ qs. identifier < length qs)
            (sym (fd_assert-queues (ltb (length items) task_limit) w)) p)
          (item_for_task-snoc items (new_item arithmetic task) e))

  -- A task that is submitted to one of the four queues is queued there afterwards, whether it was
  -- before or not; or that queue does not know it and has 8 items or more, and the queues stay as
  -- they are.
  pub submit_with_delay-Queued :
      (w : Work Float)
      → identifier < 4
      → length w.queues ≡ 4
      → Queued task
          (queue_at identifier (submit_with_delay arithmetic identifier task delay w).1).items
        ⊎ Dropped w (submit_with_delay arithmetic identifier task delay w).1
  submit_with_delay-Queued w p n =
      subst (λ r. Queued task (queue_at identifier r.1).items ⊎ Dropped w r.1)
        (sym (submit_with_delay-found w (ground (arith, p)) (ground (arith, p))))
        (found-Queued w (item_for_task (queue_at identifier w).items task) (omega (arith, p, n))
          refl)
