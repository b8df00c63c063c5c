-- ===== src/Storage/Balance.antt =====
-- How many times each block is owned, against the blocks that are allocated.
use strongswan_plugin_vpn_cu.Base.{
  ℕ, ◌+◌, ◌≤◌, ◌≡◌, refl, Bool, true, false, Option, none, some, arith, ◌==◌, if◌then◌else◌,
  Returns,
}
use strongswan_plugin_vpn_cu.Env.{Ptr}
use strongswan_plugin_vpn_cu.Storage.{Storage, malloc, free, free_option}

abbrev pub one : Ptr → Ptr → ℕ
one p q = if p == q then 1 else 0

abbrev pub maybe_one : Option Ptr → Ptr → ℕ
maybe_one none q = 0
maybe_one (some p) q = one p q

abbrev pub counted : Bool → ℕ
counted b = if b then 1 else 0

-- Each allocated block has `own` for 1 and each other block for 0, and none lies ahead of `malloc`.
pub record Balanced (own : Ptr → ℕ) (m : Storage) : Type 0 where
  pub exact : (q : Ptr) → counted (m.live q) ≡ own q
  pub ahead : (q : Ptr) → m.brk ≤ q → m.live q ≡ false

-- The same with another way to count.
pub Balanced-eq :
    (own own' : Ptr → ℕ) (m : Storage)
    → Balanced own m
    → ((q : Ptr) → own q ≡ own' q)
    → Balanced own' m
Balanced-eq own own' m b e = record { exact = λ q. omega (arith, b.exact q, e q); ahead = b.ahead }

pub malloc-Balanced :
    (own : Ptr → ℕ) (m : Storage)
    → Balanced own m
    → Balanced (λ q. own q + one (malloc m).0 q) (malloc m).1
unfolding malloc
malloc-Balanced own m b = record {
  exact = λ q. ground (arith, b.exact q, b.ahead q);
  ahead = λ q le. ground (arith, b.ahead q);
}

pub free-Balanced :
    (own : Ptr → ℕ) (p : Ptr) (m : Storage)
    → Balanced (λ q. own q + one p q) m
    → Returns (free p m) (Balanced own)
unfolding free
free-Balanced own p m b =
    let held : m.live p ≡ true = ground (arith, b.exact p) in
    (
      record m { live = λ q. if p == q then false else m.live q },
      rw held,
      record {
        exact = λ q. ground (arith, b.exact q);
        ahead = λ q le. ground (arith, b.ahead q le);
      },
    )

pub free_option-Balanced :
    (own : Ptr → ℕ) (o : Option Ptr) (m : Storage)
    → Balanced (λ q. own q + maybe_one o q) m
    → Returns (free_option o m) (Balanced own)
unfolding free_option
free_option-Balanced own none m b =
    (m, refl, Balanced-eq (λ q. own q + 0) own m b (λ q. omega arith))
free_option-Balanced own (some p) m b = free-Balanced own p m b

-- No block ahead of `malloc` is allocated.
abbrev pub IsFresh : Storage → Type 0
IsFresh m = (q : Ptr) → m.brk ≤ q → m.live q ≡ false

pub as_it_is : (m : Storage) → IsFresh m → Balanced (λ q. counted (m.live q)) m
as_it_is m fresh = record { exact = λ q. refl; ahead = fresh }
