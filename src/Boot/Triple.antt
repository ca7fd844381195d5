-- ===== src/Boot/Triple.antt =====
-- Conditions before and after a call of the boot loader: `ok x` leaves `after x`, and `fail` leaves
-- `failing`.
use firefly_zephyr.Base.{◌≡◌, refl, Bool, true, false, if◌then◌else◌}
use firefly_zephyr.Boot.Interface.{M, Machine, Result, ok, fail, pure, bind, failed, ◌>>=◌}

module _ {W : Type 0} where
  abbrev pub Outcome :
      {A : Type 0} → (A → Machine W → Type 0) → (Machine W → Type 0) → Result A × Machine W → Type 0
  Outcome after failing (ok x, m) = after x m
  Outcome after failing (fail, m) = failing m

  pub record Triple {A : Type 0} (before : Machine W → Type 0) (call : M W A)
      (after : A → Machine W → Type 0) (failing : Machine W → Type 0) : Type 0 where
    pub runs : (m : Machine W) → before m → Outcome after failing (call m)

module _ {W : Type 0} where
  bind-Outcome :
      {A B : Type 0} {after : A → Machine W → Type 0} {then_after : B → Machine W → Type 0}
      {failing : Machine W → Type 0} (r : Result A × Machine W) (f : A → M W B)
      → Outcome after failing r
      → ((x : A) → Triple (after x) (f x) then_after failing)
      → Outcome then_after failing (bind r f)
  bind-Outcome (ok x, m) f h next = (next x).runs m h
  bind-Outcome (fail, m) f h next = h

  pub Triple-bind :
      {A B : Type 0} {before : Machine W → Type 0} {after : A → Machine W → Type 0}
      {then_after : B → Machine W → Type 0} {failing : Machine W → Type 0} {a : M W A}
      {f : A → M W B}
      → Triple before a after failing
      → ((x : A) → Triple (after x) (f x) then_after failing)
      → Triple before (a >>= f) then_after failing
  Triple-bind {a = a} {f = f} first next = record {
    runs = λ m h. bind-Outcome (a m) f (first.runs m h) next;
  }

  pub Triple-pure :
      {A : Type 0} {before : Machine W → Type 0} {after : A → Machine W → Type 0}
      {failing : Machine W → Type 0} (x : A)
      → ((m : Machine W) → before m → after x m)
      → Triple before (pure x) after failing
  Triple-pure x h = record { runs = h }

  pub Triple-failed :
      {A : Type 0} {before : Machine W → Type 0} {after : A → Machine W → Type 0}
      {failing : Machine W → Type 0}
      → ((m : Machine W) → before m → failing m)
      → Triple before (failed {A = A}) after failing
  Triple-failed h = record { runs = h }

  pub Triple-if :
      {A : Type 0} {before : Machine W → Type 0} {after : A → Machine W → Type 0}
      {failing : Machine W → Type 0} {a b : M W A} (test : Bool)
      → (test ≡ true → Triple before a after failing)
      → (test ≡ false → Triple before b after failing)
      → Triple before (if test then a else b) after failing
  Triple-if true h k = h refl
  Triple-if false h k = k refl

  pub Outcome-mono :
      {A : Type 0} {after after' : A → Machine W → Type 0} {failing failing' : Machine W → Type 0}
      (r : Result A × Machine W)
      → ((x : A) (m : Machine W) → after x m → after' x m)
      → ((m : Machine W) → failing m → failing' m)
      → Outcome after failing r
      → Outcome after' failing' r
  Outcome-mono (ok x, m) h k o = h x m o
  Outcome-mono (fail, m) h k o = k m o

  -- Weaker conditions behind, stronger ones in front.
  pub Triple_mono :
      {A : Type 0} {before before' : Machine W → Type 0} {after after' : A → Machine W → Type 0}
      {failing failing' : Machine W → Type 0} {a : M W A}
      → ((m : Machine W) → before' m → before m)
      → ((x : A) (m : Machine W) → after x m → after' x m)
      → ((m : Machine W) → failing m → failing' m)
      → Triple before a after failing
      → Triple before' a after' failing'
  Triple_mono {a = a} g h k t = record { runs = λ m p. Outcome-mono (a m) h k (t.runs m (g m p)) }

  -- A fact in front that does not speak of the machine is a premise.
  pub Triple_given :
      {A F : Type 0} {before : Machine W → Type 0} {after : A → Machine W → Type 0}
      {failing : Machine W → Type 0} {a : M W A}
      → (F → Triple before a after failing)
      → Triple (λ m. F × before m) a after failing
  Triple_given {a = a} t = record { runs = λ m p. (t p.0).runs m p.1 }

  pub Triple_given_both :
      {A F G : Type 0} {before : Machine W → Type 0} {after : A → Machine W → Type 0}
      {failing : Machine W → Type 0} {a : M W A}
      → (F → G → Triple before a after failing)
      → Triple (λ m. F × G × before m) a after failing
  Triple_given_both {a = a} t = record { runs = λ m p. (t p.0 p.1).runs m p.2 }

  -- A fact in front that says that something is there names it.
  pub Triple_some :
      {A F : Type 0} {G : F → Type 0} {before : F → Machine W → Type 0}
      {after : A → Machine W → Type 0} {failing : Machine W → Type 0} {a : M W A}
      → ((x : F) → G x → Triple (before x) a after failing)
      → Triple (λ m. (x : F) × G x × before x m) a after failing
  Triple_some {a = a} t = record { runs = λ m p. (t p.0 p.1).runs m p.2 }

  -- The call returned `x` on a machine of this kind.
  abbrev pub Returns : {A : Type 0} → (Machine W → Type 0) → M W A → A → Type 0
  Returns kind a x = (m m' : Machine W) × kind m × (a m ≡ (ok x, m'))

  Outcome-seen :
      {A : Type 0} (after : A → Machine W → Type 0) (failing : Machine W → Type 0)
      (kind : Machine W → Type 0) (a : M W A) (m : Machine W) (r : Result A × Machine W)
      → a m ≡ r
      → kind m
      → Outcome after failing r
      → Outcome (λ x m'. Returns kind a x × after x m') failing r
  Outcome-seen after failing kind a m (ok x, m') e k o = ((m, m', k, e), o)
  Outcome-seen after failing kind a m (fail, m') e k o = o

  -- What the call returned, it returned.
  pub Triple_seen :
      {A : Type 0} {before : Machine W → Type 0} {after : A → Machine W → Type 0}
      {failing : Machine W → Type 0} {a : M W A} (kind : Machine W → Type 0)
      → ((m : Machine W) → before m → kind m)
      → Triple before a after failing
      → Triple before a (λ x m. Returns kind a x × after x m) failing
  Triple_seen {after = after} {failing = failing} {a = a} kind k t = record {
    runs = λ m h. Outcome-seen after failing kind a m (a m) refl (k m h) (t.runs m h);
  }
