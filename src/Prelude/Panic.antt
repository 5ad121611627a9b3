-- ===== src/Prelude/Panic.antt =====
-- A Go run that may panic: `none` is the panic.
use mathlib.Core.Path.{◌≡◌}
use mathlib.Core.Option.{Option, none, some}

infixl 5 ◌>>=◌
abbrev pub ◌>>=◌ {ℓ κ} : {A : Type ℓ} {B : Type κ} → Option A → (A → Option B) → Option B
none >>= f = none
some a >>= f = f a

pub some-bind {ℓ κ} :
    {A : Type ℓ} {B : Type κ} {m : Option A} {a : A} (f : A → Option B)
    → m ≡ some a
    → (m >>= f) ≡ f a
some-bind f e = rw e

pub returned_same {ℓ} : {A : Type ℓ} {a b : A} → some a ≡ some b → a ≡ b
returned_same e = cc

pub panics_not {ℓ} : {A : Type ℓ} {a : A} → none ≡ some a → ⊥
panics_not e = cc
