-- ===== src/Base/Partial.antt =====
-- Code that can panic: none stands for the panic, and a run goes no further.
use mathlib.Core.Bool.{Bool, true, false}
use mathlib.Core.Option.{Option, none, some}
use puddle.Base.Tests.{if◌then◌else◌}

module _ {ℓ κ} {A : Type ℓ} {B : Type κ} where
  infixl 5 ◌>>=◌
  abbrev pub ◌>>=◌ : Option A → (A → Option B) → Option B
  ◌>>=◌ none f = none
  ◌>>=◌ (some a) f = f a

  abbrev pub map_value : (A → B) → Option A → Option B
  map_value f none = none
  map_value f (some a) = some (f a)

-- There is no panic, and the predicate holds of the result.
abbrev pub Returns {ℓ} : {A : Type ℓ} → (A → Type 0) → Option A → Type 0
Returns P none = ⊥
Returns P (some a) = P a

module _ {ℓ κ} {A : Type ℓ} {B : Type κ} where
  pub bind-Returns :
      (P : A → Type 0) (Q : B → Type 0) (o : Option A) (f : A → Option B)
      → Returns P o
      → ((a : A) → P a → Returns Q (f a))
      → Returns Q (o >>= f)
  bind-Returns P Q none f h k = absurd h
  bind-Returns P Q (some a) f h k = k a h

  pub map-Returns :
      (P : A → Type 0) (Q : B → Type 0) (f : A → B) (o : Option A)
      → Returns P o
      → ((a : A) → P a → Q (f a))
      → Returns Q (map_value f o)
  map-Returns P Q f none h k = absurd h
  map-Returns P Q f (some a) h k = k a h

pub either-Returns {ℓ} :
    {A : Type ℓ} (P : A → Type 0) (b : Bool) (x y : Option A)
    → Returns P x
    → Returns P y
    → Returns P (if b then x else y)
either-Returns P true x y hx hy = hx
either-Returns P false x y hx hy = hy
