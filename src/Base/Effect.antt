-- ===== src/Base/Effect.antt =====
-- Code that can go wrong at run time: a result, or the memory fault that the C code would commit.
use mathlib.Core.Path.{◌≡◌, sym, subst, ◌∙◌}

-- `bad_index` is an access outside an allocated array, `dangling` one through a pointer to memory
-- that was freed or never allocated.
pub data Fault : Type 0 where
  bad_index dangling : Fault

pub data Run {ℓ} (A : Type ℓ) : Type ℓ where
  ok : A → Run A
  fault : Fault → Run A

infixl 5 ◌>>=◌
abbrev pub ◌>>=◌ {ℓ κ} : {A : Type ℓ} {B : Type κ} → Run A → (A → Run B) → Run B
ok a >>= f = f a
fault e >>= f = fault e

-- The run ends without a fault, in a result for which `P` holds.
abbrev pub Returns {ℓ κ} : {A : Type ℓ} → Run A → (A → Type κ) → Type (ℓ ⊔ κ)
Returns {A} m P = (a : A) × (m ≡ ok a) × P a

pub ok-injective {ℓ} : {A : Type ℓ} {a b : A} → ok a ≡ ok b → a ≡ b
ok-injective e = cc

-- What holds of the result of a run holds of the result it is known to have.
pub Returns-at {ℓ κ} :
    {A : Type ℓ} (m : Run A) (P : A → Type κ) {b : A} → Returns m P → m ≡ ok b → P b
Returns-at m P (a, ran, holds) e = subst P (ok-injective (sym ran ∙ e)) holds
