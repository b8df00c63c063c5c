-- ===== src/Base/Names.antt =====
-- C strings, as the bytes before the terminating NUL, and the `<string.h>` functions the code uses.
use Prim.Native.Nat.{ℕ}
use mathlib.Core.Path.{◌≡◌, refl}
use mathlib.Core.Logic.{◌↔◌}
use mathlib.Core.Bool.{Bool, true, false, ◌&&◌}
use mathlib.Core.List.{List, [], ◌∷◌}
use native.Mathlib.Omega.{arith}
use strongswan_plugin_vpn_cu.Base.Tests.{◌==◌, if◌then◌else◌}

abbrev pub Name : Type 0
Name = List ℕ

-- `streq(a, b)`
unfoldable pub streq : Name → Name → Bool
streq [] [] = true
streq [] (y ∷ ys) = false
streq (x ∷ xs) [] = false
streq (x ∷ xs) (y ∷ ys) = x == y && streq xs ys

-- `strncmp(s, prefix, strlen(prefix)) == 0`
unfoldable pub starts_with : Name → Name → Bool
starts_with s [] = true
starts_with [] (c ∷ cs) = false
starts_with (x ∷ xs) (c ∷ cs) = x == c && starts_with xs cs

-- `strndup(p, n)` of the first `n` bytes: it stops at a NUL.
unfoldable pub strndup : List ℕ → Name
strndup [] = []
strndup (c ∷ cs) = let rest = strndup cs in if c == 0 then [] else c ∷ rest

pub streq_refl : (a : Name) → streq a a ≡ true
unfolding streq
streq_refl [] = refl
streq_refl (x ∷ xs) = ground (arith, streq_refl xs)

pub streq-eq : (a b : Name) → streq a b ≡ true → a ≡ b
unfolding streq
streq-eq [] [] h = refl
streq-eq [] (y ∷ ys) h = cc
streq-eq (x ∷ xs) [] h = cc
streq-eq (x ∷ xs) (y ∷ ys) h = ground (arith, streq-eq xs ys)

pub streq_iff : (a b : Name) → (streq a b ≡ true) ↔ (a ≡ b)
streq_iff a b = (streq-eq a b, λ e. rw e (streq_refl b))
