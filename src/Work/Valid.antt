-- ===== src/Work/Valid.antt =====
-- What holds of the queues between two calls.
use mathlib.Core.Path.{subst}
use firefly_zephyr.Base.{
  ℕ, zero, suc, ◌≤◌, ◌≡◌, refl, sym, ap, ◌∙◌, Bool, true, false, ◌⊎◌, inl, inr, Option, none, some,
  List, [], ◌∷◌, ◌++◌, length, length-set, get_or, set, if◌then◌else◌, arith,
}
use firefly_zephyr.Work.Types.{
  Task, Item, Queue, Work, same_task, empty_queue, fd_assert, queue_at, put_items,
}
use firefly_zephyr.Work.Queues.{item_for_task, item_at}

abbrev pub Absent : Task → List Task → Type 0
Absent t [] = Unit
Absent t (u ∷ us) = (same_task u t ≡ false) × Absent t us

abbrev pub Distinct : List Task → Type 0
Distinct [] = Unit
Distinct (t ∷ ts) = Absent t ts × Distinct ts

same_task_comm : (t u : Task) → same_task t u ≡ same_task u t
same_task_comm t u = ground arith

Absent-snoc :
    (t u : Task) (ts : List Task) → Absent t ts → same_task u t ≡ false → Absent t (ts ++ (u ∷ []))
Absent-snoc t u [] h e = (e, tt)
Absent-snoc t u (v ∷ ts) h e = (h.0, Absent-snoc t u ts h.1 e)

pub Distinct-snoc :
    (ts : List Task) (t : Task) → Distinct ts → Absent t ts → Distinct (ts ++ (t ∷ []))
Distinct-snoc [] t d h = (tt, tt)
Distinct-snoc (u ∷ ts) t d h =
    (Absent-snoc u t ts d.0 (same_task_comm t u ∙ h.0), Distinct-snoc ts t d.1 h.1)

not_found :
    (c : Bool) (r : Option ℕ)
    → (if◌then◌else◌ {A = Option ℕ} c (some 0) (elim r [ none ↦ none | some i ↦ some (suc i) ]))
      ≡ none
    → (c ≡ false) × (r ≡ none)
not_found true r e = cc
not_found false none e = (refl, refl)
not_found false (some i) e = cc

module _ {Float : Type 0} where
  abbrev pub tasks : List (Item Float) → List Task
  tasks [] = []
  tasks (item ∷ items) = item.task ∷ tasks items

  pub tasks-append : (xs ys : List (Item Float)) → tasks (xs ++ ys) ≡ tasks xs ++ tasks ys
  tasks-append [] ys = refl
  tasks-append (x ∷ xs) ys = ap (λ t. x.task ∷ t) (tasks-append xs ys)

  -- An item keeps its task.
  pub tasks-set :
      (items : List (Item Float)) (i : ℕ) (d item : Item Float)
      → item.task ≡ (item_at d items i).task
      → tasks (set items i item) ≡ tasks items
  tasks-set [] i d item e = refl
  tasks-set (x ∷ items) zero d item e = ap (λ t. t ∷ tasks items) e
  tasks-set (x ∷ items) (suc i) d item e = ap (λ t. x.task ∷ t) (tasks-set items i d item e)

  pub item_for_task-none :
      (items : List (Item Float)) (t : Task) → item_for_task items t ≡ none → Absent t (tasks items)
  unfolding item_for_task
  item_for_task-none [] t e = tt
  item_for_task-none (x ∷ items) t e =
      let (c, r) = not_found (same_task x.task t) (item_for_task items t) e in
      (c, item_for_task-none items t r)

  pub record IsQueue (items : List (Item Float)) : Type 0 where
    pub fits : length items ≤ 8
    pub distinct : Distinct (tasks items)

  pub record IsValid (w : Work Float) : Type 0 where
    pub four : length w.queues ≡ 4
    pub counted : w.queue_count ≤ 4
    pub each : (i : ℕ) → IsQueue (queue_at i w).items

  -- A list with one entry written.
  pub get_or-set :
      (xs : List (Queue Float)) (i : ℕ) (v : Queue Float) (j : ℕ) (d : Queue Float)
      → (get_or (set xs i v) j d ≡ v) ⊎ (get_or (set xs i v) j d ≡ get_or xs j d)
  get_or-set [] i v j d = inr refl
  get_or-set (x ∷ xs) zero v zero d = inl refl
  get_or-set (x ∷ xs) zero v (suc j) d = inr refl
  get_or-set (x ∷ xs) (suc i) v zero d = inr refl
  get_or-set (x ∷ xs) (suc i) v (suc j) d = get_or-set xs i v j d

  pub IsValid-put_items :
      (i : ℕ) (items : List (Item Float)) (w : Work Float)
      → IsValid w
      → IsQueue items
      → IsValid (put_items i items w)
  IsValid-put_items i items w v q = record {
    four = length-set w.queues i _ ∙ v.four;
    counted = v.counted;
    each = λ j.
        elim (get_or-set w.queues i (record (queue_at i w) { items = items }) j empty_queue) [
          | inl e ↦ subst (λ k. IsQueue k.items) (sym e) q
          | inr e ↦ subst (λ k. IsQueue k.items) (sym e) (v.each j)
        ];
  }

  pub IsValid-fd_assert : (c : Bool) (w : Work Float) → IsValid w → IsValid (fd_assert c w)
  IsValid-fd_assert true w v = v
  IsValid-fd_assert false w v = record { four = v.four; counted = v.counted; each = v.each }

  pub IsQueue-set :
      (items : List (Item Float)) (i : ℕ) (d item : Item Float)
      → item.task ≡ (item_at d items i).task
      → IsQueue items
      → IsQueue (set items i item)
  IsQueue-set items i d item e q = record {
    fits = omega (arith, length-set items i item, q.fits);
    distinct = subst (λ t. Distinct t) (sym (tasks-set items i d item e)) q.distinct;
  }

  pub IsValid-if :
      (c : Bool) (w u : Work Float)
      → (c ≡ true → IsValid w)
      → (c ≡ false → IsValid u)
      → IsValid (if c then w else u)
  IsValid-if true w u p q = p refl
  IsValid-if false w u p q = q refl

  pub IsValid-second :
      {A : Type 0} (c : Bool) (r s : A × Work Float)
      → (c ≡ true → IsValid r.1)
      → (c ≡ false → IsValid s.1)
      → IsValid (if◌then◌else◌ {A = A × Work Float} c r s).1
  IsValid-second true r s p q = p refl
  IsValid-second false r s p q = q refl

  pub fd_assert-queues : (c : Bool) (w : Work Float) → (fd_assert c w).queues ≡ w.queues
  fd_assert-queues true w = refl
  fd_assert-queues false w = refl

  pub fd_assert-queue_count :
      (c : Bool) (w : Work Float) → (fd_assert c w).queue_count ≡ w.queue_count
  fd_assert-queue_count true w = refl
  fd_assert-queue_count false w = refl
