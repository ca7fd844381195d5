-- ===== src/Work/Lookup.antt =====
-- Where a task stands among the items of a queue.
use firefly_zephyr.Base.{
  ℕ, suc, ◌≤◌, ◌<◌, ◌≡◌, refl, sym, ap, ap₂, ◌∙◌, Bool, true, false, ◌⊎◌, inl, inr, Option, none,
  some, List, [], ◌∷◌, ◌++◌, length, leb, if◌then◌else◌, arith,
}
use firefly_zephyr.Work.Types.{Task, Item, same_task}
use firefly_zephyr.Work.Queues.{item_for_task, item_at}
use firefly_zephyr.Work.Valid.{tasks}

same_task_self : (t : Task) → same_task t t ≡ true
same_task_self t = ground arith

abbrev after_some : Option ℕ → Option ℕ
after_some none = none
after_some (some i) = some (suc i)

pub leb-true : (m n : ℕ) → leb m n ≡ true → m ≤ n
leb-true m n e = ground (arith, e)

by_result :
    (c : Bool) (r : Option ℕ)
    → (if◌then◌else◌ {A = Option ℕ} c (some 0) (elim r [ none ↦ none | some i ↦ some (suc i) ]))
      ≡ (if c then some 0 else after_some r)
by_result c none = refl
by_result c (some i) = refl

missed :
    (c : Bool) (r : Option ℕ)
    → (if c then some 0 else after_some r) ≡ none
    → (c ≡ false) × (r ≡ none)
missed true r e = cc
missed false none e = (refl, refl)
missed false (some i) e = cc

hit :
    (c : Bool) (r : Option ℕ) (i : ℕ)
    → (if c then some 0 else after_some r) ≡ some i
    → (i ≡ 0) ⊎ ((j : ℕ) × (r ≡ some j) × (i ≡ suc j))
hit true r i e = inl cc
hit false none i e = cc
hit false (some j) i e = inr (j, refl, cc)

module _ {Float : Type 0} where
  -- The task stands in the items, queued.
  pub data Queued (task : Task) (items : List (Item Float)) : Type 0 where
    at :
        (i : ℕ) (item : Item Float)
        → item_for_task items task ≡ some i
        → (d : Item Float) → item_at d items i ≡ item
        → item.is_queued ≡ true
        → Queued task items

  item_for_task-cons :
      (x : Item Float) (xs : List (Item Float)) (t : Task)
      → item_for_task (x ∷ xs) t
        ≡ (if same_task x.task t then some 0 else after_some (item_for_task xs t))
  unfolding item_for_task
  item_for_task-cons x xs t = by_result (same_task x.task t) (item_for_task xs t)

  pub item_for_task-tasks :
      (xs ys : List (Item Float)) (t : Task)
      → tasks xs ≡ tasks ys
      → item_for_task xs t ≡ item_for_task ys t
  item_for_task-tasks [] [] t e = refl
  item_for_task-tasks [] (y ∷ ys) t e = absurd (cc e)
  item_for_task-tasks (x ∷ xs) [] t e = absurd (cc e)
  item_for_task-tasks (x ∷ xs) (y ∷ ys) t e =
      let h : x.task ≡ y.task = cc in
      let r : tasks xs ≡ tasks ys = cc in
      item_for_task-cons x xs t
      ∙ ap₂ (λ u k. if same_task u t then some 0 else after_some k) h
          (item_for_task-tasks xs ys t r)
      ∙ sym (item_for_task-cons y ys t)

  pub item_for_task-snoc :
      (xs : List (Item Float)) (x : Item Float)
      → item_for_task xs x.task ≡ none
      → item_for_task (xs ++ (x ∷ [])) x.task ≡ some (length xs)
  item_for_task-snoc [] x e =
      item_for_task-cons x [] x.task
      ∙ ap (λ c. if c then some 0 else after_some (item_for_task {Float = Float} [] x.task))
          (same_task_self x.task)
  item_for_task-snoc (y ∷ xs) x e =
      let (c, r) =
        missed (same_task y.task x.task) (item_for_task xs x.task)
          (sym (item_for_task-cons y xs x.task) ∙ e) in
      item_for_task-cons y (xs ++ (x ∷ [])) x.task
      ∙ ap₂ (λ b k. if b then some 0 else after_some k) c (item_for_task-snoc xs x r)

  pub item_for_task-lt :
      (xs : List (Item Float)) (t : Task) (i : ℕ) → item_for_task xs t ≡ some i → i < length xs
  unfolding item_for_task
  item_for_task-lt [] t i e = cc
  item_for_task-lt (x ∷ xs) t i e =
      elim (hit (same_task x.task t) (item_for_task xs t) i (sym (item_for_task-cons x xs t) ∙ e)) [
        | inl z ↦ omega (arith, z)
        | inr (j, r, n) ↦ omega (arith, n, item_for_task-lt xs t j r)
      ]
