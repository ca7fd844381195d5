-- ===== src/Work/Round.antt =====
-- One round over a queue whose due tasks leave the queues alone: each of them runs once, in the order
-- of the queue.
use firefly_zephyr.Base.{
  ℕ, zero, suc, ◌+◌, ◌≤◌, ◌<◌, ◌≡◌, refl, sym, ap, ap₂, ◌∙◌, Bool, true, false, not, ◌&&◌, ◌||◌,
  ◌⊎◌, inl, inr, List, [], ◌∷◌, ◌++◌, append_assoc, append-nil, length, length-append, ltb,
  if◌then◌else◌, arith,
}
use firefly_zephyr.Work.Types.{Arithmetic, task_limit, Task, Item, Work, queue_at, put_items}
use firefly_zephyr.Work.Queues.{item_at, new_item}
use firefly_zephyr.Work.Run.{process_item, process_loop, impl_process}
use firefly_zephyr.Work.Stage.{get_or-middle, put_items-same, stage, stage-items, restage}

module _ {Float : Type 0} (arithmetic : Arithmetic Float) where
  -- What an item becomes, whether its task is due, and whether it waits on.
  abbrev pub due : Float → Item Float → Bool
  due elapsed item = item.is_queued && arithmetic.at_most_zero (arithmetic.minus item.delay elapsed)

  abbrev pub waits : Float → Item Float → Bool
  waits elapsed item =
      item.is_queued && not (arithmetic.at_most_zero (arithmetic.minus item.delay elapsed))

  abbrev pub after : Float → Item Float → Item Float
  after elapsed item =
      if item.is_queued
      then record item {
        is_queued = waits elapsed item;
        delay = arithmetic.minus item.delay elapsed;
      }
      else item

  abbrev pub all_after : Float → List (Item Float) → List (Item Float)
  all_after elapsed [] = []
  all_after elapsed (item ∷ items) = after elapsed item ∷ all_after elapsed items

  abbrev pub all_due : Float → List (Item Float) → List Task
  all_due elapsed [] = []
  all_due elapsed (item ∷ items) =
      let later = all_due elapsed items in if due elapsed item then item.task ∷ later else later

  abbrev pub any_waits : Float → List (Item Float) → Bool
  any_waits elapsed [] = false
  any_waits elapsed (item ∷ items) = waits elapsed item || any_waits elapsed items

-- Each of the tasks leaves the queues as they are.
abbrev pub AllLeave : {Float : Type 0} → (Task → Work Float → Work Float) → List Task → Type 0
AllLeave {Float} run [] = Unit
AllLeave {Float} run (t ∷ ts) = ((w : Work Float) → run t w ≡ w) × AllLeave run ts

bool_cases : (c : Bool) → (c ≡ true) ⊎ (c ≡ false)
bool_cases true = inl refl
bool_cases false = inr refl

or_assoc : (a b c : Bool) → (a || b) || c ≡ a || (b || c)
or_assoc true b c = refl
or_assoc false b c = refl

or_false : (a : Bool) → a || false ≡ a
or_false true = refl
or_false false = refl

stays : {A : Type 0} (c : Bool) (a b : A) → c ≡ false → (if c then a else b) ≡ b
stays c a b e = rw e refl

at_end :
    {Float : Type 0} (done items : List (Item Float))
    → items ≡ done ++ []
    → ltb (length done) (length items) ≡ false
at_end done items e =
    let n : length items ≡ length done = ap length (e ∙ append-nil done) in ground (arith, n)

in_middle :
    {Float : Type 0} (done : List (Item Float)) (x : Item Float) (rest items : List (Item Float))
    → items ≡ done ++ (x ∷ rest)
    → ltb (length done) (length items) ≡ true
in_middle done x rest items e =
    let n : length items ≡ length done + suc (length rest) =
      ap length e ∙ length-append done (x ∷ rest) in
    ground (arith, n)

pick :
    (c : Bool) (t : Task) (ts : List Task)
    → (if c then t ∷ [] else []) ++ ts ≡ (if c then t ∷ ts else ts)
pick true t ts = refl
pick false t ts = refl

all_due-cons :
    {Float : Type 0} (arithmetic : Arithmetic Float) (elapsed : Float) (x : Item Float)
    (rest : List (Item Float))
    → all_due arithmetic elapsed (x ∷ []) ++ all_due arithmetic elapsed rest
      ≡ all_due arithmetic elapsed (x ∷ rest)
all_due-cons arithmetic elapsed x rest =
    pick (due arithmetic elapsed x) x.task (all_due arithmetic elapsed rest)

chosen : {A : Type 0} (c : Bool) (a b : A) → c ≡ true → (if c then a else b) ≡ a
chosen c a b e = rw e refl

module _ {Float : Type 0} (arithmetic : Arithmetic Float) (run : Task → Work Float → Work Float)
    (identifier : ℕ) (elapsed : Float) where
  leaves_now :
      (c : Bool) (t : Task) (ts : List Task)
      → AllLeave run (if c then t ∷ ts else ts)
      → (c ≡ true → (w : Work Float) → run t w ≡ w) × AllLeave run ts
  leaves_now true t ts (now, later) = (λ e. now, later)
  leaves_now false t ts later = (λ e. cc, later)

  process_item_lem :
      (done : List (Item Float)) (task : Task) (q : Bool) (delay : Float) (rest : List (Item Float))
      (ran : List Task) (w : Work Float)
      → identifier < length w.queues
      → (due arithmetic elapsed (record { task = task; is_queued = q; delay = delay }) ≡ true
          → (w : Work Float) → run task w ≡ w)
      → let x : Item Float = record { task = task; is_queued = q; delay = delay } in
        process_item arithmetic run identifier
          (length done)
          x
          elapsed
          (stage identifier (done ++ (x ∷ rest)) ran w)
        ≡ (
          waits arithmetic elapsed x,
          stage identifier
              (done ++ (after arithmetic elapsed x ∷ rest))
              (ran ++ all_due arithmetic elapsed (x ∷ []))
              w,
        )
  unfolding process_item
  process_item_lem done task false delay rest ran w p leaves =
      let x : Item Float = record { task = task; is_queued = false; delay = delay } in
      ap (λ r. (false, stage identifier (done ++ (x ∷ rest)) r w)) (sym (append-nil ran))
  process_item_lem done task true delay rest ran w p leaves =
      let x : Item Float = record { task = task; is_queued = true; delay = delay } in
      elim (bool_cases (arithmetic.at_most_zero (arithmetic.minus delay elapsed))) [
        | inl c ↦ rw c (
            let y : Item Float = record {
              task = task;
              is_queued = false;
              delay = arithmetic.minus delay elapsed;
            } in
            ap (λ u. (false, u))
              (leaves c _
                ∙ ap (λ (u : Work Float). record u { ran = u.ran ++ (task ∷ []) })
                    (restage identifier done x y rest ran w p)))
        | inr c ↦ rw c (
            let y : Item Float = record {
              task = task;
              is_queued = true;
              delay = arithmetic.minus delay elapsed;
            } in
            ap (λ u. (true, u))
              (restage identifier done x y rest ran w p
                ∙ ap (λ r. stage identifier (done ++ (y ∷ rest)) r w) (sym (append-nil ran))))
      ]

  gathered :
      {a b : Bool} {xs ys : List (Item Float)} {r t : List Task}
      → a ≡ b
      → xs ≡ ys
      → r ≡ t
      → (w : Work Float)
      → ◌≡◌ {A = Bool × Work Float} (a, stage identifier xs r w) (b, stage identifier ys t w)
  gathered {b = b} {ys = ys} {r = r} e f g w =
      ap₂ (λ c items. (c, stage identifier items r w)) e f
      ∙ ap (λ k. (b, stage identifier ys k w)) g

  loop_lem :
      (rest done : List (Item Float)) (fuel : ℕ) (any : Bool) (ran : List Task) (w : Work Float)
      → length rest ≤ fuel
      → identifier < length w.queues
      → AllLeave run (all_due arithmetic elapsed rest)
      → process_loop arithmetic run fuel identifier
          (length done)
          elapsed
          any
          (stage identifier (done ++ rest) ran w)
        ≡ (
          any || any_waits arithmetic elapsed rest,
          stage identifier
              (done ++ all_after arithmetic elapsed rest)
              (ran ++ all_due arithmetic elapsed rest)
              w,
        )
  unfolding process_loop
  loop_lem [] done zero any ran w f p leaves =
      ap₂ (λ b r. (b, stage identifier (done ++ []) r w)) (sym (or_false any))
        (sym (append-nil ran))
  loop_lem [] done (suc fuel) any ran w f p leaves =
      stays
        (ltb (length done)
          (length (queue_at identifier (stage identifier (done ++ []) ran w)).items))
        _ _
        (at_end done (queue_at identifier (stage identifier (done ++ []) ran w)).items
          (stage-items identifier (done ++ []) ran w p))
      ∙ ap₂ (λ b r. (b, stage identifier (done ++ []) r w)) (sym (or_false any))
          (sym (append-nil ran))
  loop_lem (x ∷ rest) done zero any ran w f p leaves = absurd (omega (arith, f))
  loop_lem (x ∷ rest) done (suc fuel) any ran w f p leaves =
      let s = stage identifier (done ++ (x ∷ rest)) ran w in
      let items = (queue_at identifier s).items in
      let d = new_item arithmetic (record { function = 0; context = 0 }) in
      let y = after arithmetic elapsed x in
      let one = all_due arithmetic elapsed (x ∷ []) in
      let (now, later) =
        leaves_now (due arithmetic elapsed x) x.task (all_due arithmetic elapsed rest) leaves in
      let same : items ≡ done ++ (x ∷ rest) = stage-items identifier (done ++ (x ∷ rest)) ran w p in
      let found : item_at d items (length done) ≡ x =
        ap (λ t. item_at d t (length done)) same ∙ get_or-middle done x rest d in
      let step =
        ap (λ item. process_item arithmetic run identifier (length done) item elapsed s) found
        ∙ process_item_lem done x.task x.is_queued x.delay rest ran w p now in
      chosen (ltb (length done) (length items)) _ _ (in_middle done x rest items same)
      ∙ ap
          (λ r.
            process_loop arithmetic run fuel identifier (length done + 1) elapsed (any || r.0) r.1)
          step
      ∙ ap₂
          (λ k t.
            process_loop arithmetic run fuel identifier k elapsed
              (any || waits arithmetic elapsed x) (stage identifier t (ran ++ one) w))
          (sym (length-append done (y ∷ []))) (sym (append_assoc done (y ∷ []) rest))
      ∙ loop_lem rest (done ++ (y ∷ [])) fuel (any || waits arithmetic elapsed x) (ran ++ one) w
          (omega (arith, f)) p later
      ∙ gathered (or_assoc any (waits arithmetic elapsed x) (any_waits arithmetic elapsed rest))
          (append_assoc done (y ∷ []) (all_after arithmetic elapsed rest))
          (append_assoc ran one (all_due arithmetic elapsed rest)
            ∙ ap (λ t. ran ++ t) (all_due-cons arithmetic elapsed x rest))
          w

  -- If each task that is due leaves the state of the queues, whatever it is, as it is, one
  -- `fd_work_queue_impl_process` of a queue of at most 8 tasks runs the tasks that are queued and
  -- whose delay is at an end, each once and in the order of the queue, takes them and no others
  -- out of it, takes the elapsed time off the delay of each queued task, and returns whether one
  -- is left that waits.
  pub impl_process-round :
      (w : Work Float)
      → identifier < length w.queues
      → length (queue_at identifier w).items ≤ 8
      → AllLeave run (all_due arithmetic elapsed (queue_at identifier w).items)
      → impl_process arithmetic run identifier elapsed w ≡ (
        any_waits arithmetic elapsed (queue_at identifier w).items,
        record (put_items identifier
            (all_after arithmetic elapsed (queue_at identifier w).items)
            w) { ran = w.ran ++ all_due arithmetic elapsed (queue_at identifier w).items },
      )
  unfolding impl_process
  impl_process-round w p q leaves =
      ap (λ u. process_loop arithmetic run task_limit identifier 0 elapsed false u)
        (sym (put_items-same identifier w))
      ∙ loop_lem (queue_at identifier w).items [] task_limit false w.ran w q p leaves
