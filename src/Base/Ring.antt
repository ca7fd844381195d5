-- ===== src/Base/Ring.antt =====
-- Index arithmetic of a ring with `size` slots, for any kind of slot: what fd_fifo.c and
-- fd_object_fifo.c share.
use Prim.Native.Nat.{ℕ, zero, suc, ◌+◌, ◌-◌, ◌≤◌, ◌<◌}
use mathlib.Core.Path.{◌≡◌, refl, sym, ap, ap₂, ◌∙◌}
use mathlib.Core.Logic.{◌≢◌}
use mathlib.Core.Option.{none, some}
use mathlib.Core.List.{List, [], ◌∷◌, ◌++◌}
use native.Mathlib.Omega.{arith}
use firefly_zephyr.Base.Tests.{ltb, leb, if◌then◌else◌}
use firefly_zephyr.Base.Lists.{length, get_elem?}

-- The slot behind `h`, and the slot `n` steps behind `h`.
unfoldable pub after : ℕ → ℕ → ℕ
after size h = if leb size (h + 1) then 0 else h + 1

unfoldable pub place : ℕ → ℕ → ℕ → ℕ
place size h n = if ltb (h + n) size then h + n else h + n - size

-- The number of steps from `head` to `tail`.
unfoldable pub span : ℕ → ℕ → ℕ → ℕ
span size head tail = if leb head tail then tail - head else size - head + tail

pub after-lt : (size h : ℕ) → h < size → after size h < size
unfolding after
after-lt size h p = ground arith

pub place-lt : (size h n : ℕ) → h < size → n < size → place size h n < size
unfolding place
place-lt size h n p q = ground arith

pub place-zero : (size h : ℕ) → h < size → place size h 0 ≡ h
unfolding place
place-zero size h p = ground arith

pub place-suc :
    (size h n : ℕ) → h < size → suc n < size → place size h (suc n) ≡ place size (after size h) n
unfolding place after
place-suc size h n p q = ground arith

-- Fewer than `size` steps do not come back.
pub place-ne : (size h n : ℕ) → h < size → suc n < size → place size h (suc n) ≢ h
unfolding place
place-ne size h n p q = ground arith

pub span-lt : (size h t : ℕ) → h < size → t < size → span size h t < size
unfolding span
span-lt size h t p q = ground arith

pub place-span : (size h t : ℕ) → h < size → t < size → place size h (span size h t) ≡ t
unfolding place span
place-span size h t p q = ground arith

pub span_self : (size h : ℕ) → span size h h ≡ 0
unfolding span
span_self size h = ground arith

pub span-zero : (size h t : ℕ) → h < size → t < size → span size h t ≡ 0 → h ≡ t
unfolding span
span-zero size h t p q e = ground arith

-- Moving the tail on adds a step, unless it meets the head.
pub span-after_tail :
    (size h t : ℕ)
    → h < size
    → t < size
    → after size t ≢ h
    → span size h (after size t) ≡ suc (span size h t)
unfolding span after
span-after_tail size h t p q ne = ground arith

pub span-full : (size h t : ℕ) → h < size → t < size → after size t ≡ h → span size h t + 1 ≡ size
unfolding span after
span-full size h t p q e = ground arith

pub span-not_full :
    (size h t : ℕ) → h < size → t < size → after size t ≢ h → span size h t + 1 < size
unfolding span after
span-not_full size h t p q ne = ground arith

-- Moving the head on takes a step away, unless the ring is empty.
pub span-after_head :
    (size h t : ℕ) → h < size → t < size → h ≢ t → span size h t ≡ suc (span size (after size h) t)
unfolding span after
span-after_head size h t p q ne = ground arith

module _ {ℓ} {A : Type ℓ} where
  -- The contents of `n` slots from `h` on, where `slot i` is what slot `i` holds.
  unfoldable pub items : (ℕ → A) → ℕ → ℕ → ℕ → List A
  items slot size h zero = []
  items slot size h (suc n) = slot h ∷ items slot size (after size h) n

  pub length-items : (slot : ℕ → A) (size h n : ℕ) → length (items slot size h n) ≡ n
  unfolding items
  length-items slot size h zero = refl
  length-items slot size h (suc n) = ap suc (length-items slot size (after size h) n)

  -- Writing `x` into the slot behind the last one appends `x`.
  pub items-snoc :
      (slot slot' : ℕ → A) (size : ℕ) (x : A) (n h : ℕ)
      → h < size
      → n < size
      → slot' (place size h n) ≡ x
      → ((i : ℕ) → i < size → i ≢ place size h n → slot' i ≡ slot i)
      → items slot' size h (suc n) ≡ items slot size h n ++ (x ∷ [])
  unfolding items
  items-snoc slot slot' size x zero h p q e keep =
      ap (λ y. y ∷ []) (ap slot' (sym (place-zero size h p)) ∙ e)
  items-snoc slot slot' size x (suc n) h p q e keep =
      ap₂ ◌∷◌ (keep h p (λ c. place-ne size h n p q (sym c))) (
        items-snoc slot slot' size x n (after size h) (after-lt size h p) (omega arith)
          (ap slot' (sym step) ∙ e) (λ i r ne. keep i r (λ c. ne (c ∙ step))))
    where
      step : place size h (suc n) ≡ place size (after size h) n
      step = place-suc size h n p q

  -- Writing into a slot behind the last one changes nothing.
  pub items-keep :
      (slot slot' : ℕ → A) (size n h : ℕ)
      → h < size
      → n < size
      → ((i : ℕ) → i < size → i ≢ place size h n → slot' i ≡ slot i)
      → items slot' size h n ≡ items slot size h n
  unfolding items
  items-keep slot slot' size zero h p q keep = refl
  items-keep slot slot' size (suc n) h p q keep =
      ap₂ ◌∷◌ (keep h p (λ c. place-ne size h n p q (sym c))) (
        items-keep slot slot' size n (after size h) (after-lt size h p) (omega arith)
          (λ i r ne. keep i r (λ c. ne (c ∙ place-suc size h n p q))))

  pub get_elem?-items :
      (slot : ℕ → A) (size n h i : ℕ)
      → h < size
      → n < size
      → i < n
      → get_elem? (items slot size h n) i ≡ some (slot (place size h i))
  unfolding items
  get_elem?-items slot size zero h i p q r = elim r [ ]
  get_elem?-items slot size (suc n) h zero p q r =
      ap (λ k. some (slot k)) (sym (place-zero size h p))
  get_elem?-items slot size (suc n) h (suc i) p q r =
      get_elem?-items slot size n (after size h) i (after-lt size h p) (omega arith) (omega arith)
      ∙ ap (λ k. some (slot k)) (sym (place-suc size h i p (omega arith)))

pub get_elem?-none {ℓ} : {A : Type ℓ} (xs : List A) (i : ℕ) → length xs ≤ i → get_elem? xs i ≡ none
get_elem?-none [] i p = refl
get_elem?-none (x ∷ xs) zero p = elim p [ ]
get_elem?-none (x ∷ xs) (suc i) p = get_elem?-none xs i (omega arith)
