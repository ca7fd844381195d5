-- ===== src/Work/Stage.antt =====
-- The items of one queue, written and read back in the middle of a round.
use firefly_zephyr.Base.{
  ℕ, zero, suc, ◌<◌, ◌≡◌, refl, ap, ◌∙◌, List, [], ◌∷◌, ◌++◌, length, get_or, get_or-set_self, set,
}
use firefly_zephyr.Work.Types.{Task, Item, Work, empty_queue, queue_at, put_items}

module _ {A : Type 0} where
  pub get_or-middle :
      (xs : List A) (y : A) (ys : List A) (d : A) → get_or (xs ++ (y ∷ ys)) (length xs) d ≡ y
  get_or-middle [] y ys d = refl
  get_or-middle (x ∷ xs) y ys d = get_or-middle xs y ys d

  set-middle :
      (xs : List A) (y z : A) (ys : List A) → set (xs ++ (y ∷ ys)) (length xs) z ≡ xs ++ (z ∷ ys)
  set-middle [] y z ys = refl
  set-middle (x ∷ xs) y z ys = ap (λ t. x ∷ t) (set-middle xs y z ys)

  set-set : (xs : List A) (i : ℕ) (y z : A) → set (set xs i y) i z ≡ set xs i z
  set-set [] i y z = refl
  set-set (x ∷ xs) zero y z = refl
  set-set (x ∷ xs) (suc i) y z = ap (λ t. x ∷ t) (set-set xs i y z)

  set-get_or : (xs : List A) (i : ℕ) (d : A) → set xs i (get_or xs i d) ≡ xs
  set-get_or [] i d = refl
  set-get_or (x ∷ xs) zero d = refl
  set-get_or (x ∷ xs) (suc i) d = ap (λ t. x ∷ t) (set-get_or xs i d)

module _ {Float : Type 0} (identifier : ℕ) where
  pub queue_at-put_items :
      (items : List (Item Float)) (w : Work Float)
      → identifier < length w.queues
      → queue_at identifier (put_items identifier items w)
        ≡ record (queue_at identifier w) { items = items }
  queue_at-put_items items w p = get_or-set_self w.queues identifier _ empty_queue p

  put_items-put_items :
      (xs ys : List (Item Float)) (w : Work Float)
      → identifier < length w.queues
      → put_items identifier ys (put_items identifier xs w) ≡ put_items identifier ys w
  put_items-put_items xs ys w p =
      ap
        (λ q. record w {
          queues =
              set (set w.queues identifier (record (queue_at identifier w) { items = xs }))
                identifier (record q { items = ys });
        })
        (queue_at-put_items xs w p)
      ∙ ap (λ qs. record w { queues = qs }) (set-set w.queues identifier _ _)

  pub put_items-same : (w : Work Float) → put_items identifier (queue_at identifier w).items w ≡ w
  put_items-same w =
      ap (λ qs. record w { queues = qs }) (set-get_or w.queues identifier empty_queue)

  -- The state in the middle of a round.
  abbrev pub stage : List (Item Float) → List Task → Work Float → Work Float
  stage items ran w = record (put_items identifier items w) { ran = ran }

  pub stage-items :
      (items : List (Item Float)) (ran : List Task) (w : Work Float)
      → identifier < length w.queues
      → (queue_at identifier (stage items ran w)).items ≡ items
  stage-items items ran w p = ap (λ q. q.items) (queue_at-put_items items w p)

  pub restage :
      (done : List (Item Float)) (x y : Item Float) (rest : List (Item Float)) (ran : List Task)
      (w : Work Float)
      → identifier < length w.queues
      → put_items identifier
          (set (queue_at identifier (stage (done ++ (x ∷ rest)) ran w)).items (length done) y)
          (stage (done ++ (x ∷ rest)) ran w)
        ≡ stage (done ++ (y ∷ rest)) ran w
  restage done x y rest ran w p =
      ap
        (λ items.
          put_items identifier (set items (length done) y) (stage (done ++ (x ∷ rest)) ran w))
        (stage-items (done ++ (x ∷ rest)) ran w p)
      ∙ ap (λ items. put_items identifier items (stage (done ++ (x ∷ rest)) ran w))
          (set-middle done x y rest)
      ∙ ap (λ (u : Work Float). record u { ran = ran })
          (put_items-put_items (done ++ (x ∷ rest)) (done ++ (y ∷ rest)) w p)
