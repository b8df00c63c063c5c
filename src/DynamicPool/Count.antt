-- ===== src/DynamicPool/Count.antt =====
-- How many indices of a bitmap are marked.
use strongswan_plugin_vpn_cu.Base.{
  ℕ, zero, suc, ◌+◌, ◌≤◌, ◌<◌, ◌≡◌, refl, Bool, true, false, arith, ◌==◌, if◌then◌else◌,
}

pub count : (ℕ → Bool) → ℕ → ℕ
count f zero = 0
count f (suc n) = (if f n then 1 else 0) + count f n

pub count-le : (f : ℕ → Bool) (n : ℕ) → count f n ≤ n
unfolding count
count-le f zero = omega arith
count-le f (suc n) = ground (arith, count-le f n)

pub count-eq-zero : (f : ℕ → Bool) (n : ℕ) → ((j : ℕ) → f j ≡ false) → count f n ≡ 0
unfolding count
count-eq-zero f zero h = refl
count-eq-zero f (suc n) h = ground (arith, h n, count-eq-zero f n h)

pub count_full : (f : ℕ → Bool) (n : ℕ) → ((j : ℕ) → j < n → f j ≡ true) → count f n ≡ n
unfolding count
count_full f zero h = refl
count_full f (suc n) h = ground (arith, h n, count_full f n (λ j lt. h j (omega arith)))

pub count_not_full : (f : ℕ → Bool) (n j : ℕ) → j < n → f j ≡ false → count f n < n
unfolding count
count_not_full f zero j lt h = elim lt [ ]
count_not_full f (suc n) j lt h = ground (arith, count-le f n, count_not_full f n j, h)

module _ (f g : ℕ → Bool) (i : ℕ) (v : Bool) (h : (j : ℕ) → g j ≡ (if i == j then v else f j)) where
  count_away : (n : ℕ) → n ≤ i → count g n ≡ count f n
  unfolding count
  count_away zero le = refl
  count_away (suc n) le = ground (arith, h n, count_away n)

  -- Marking an index that was clear adds one.
  pub count_mark : v ≡ true → f i ≡ false → (n : ℕ) → i < n → count g n ≡ count f n + 1
  unfolding count
  count_mark e clear zero lt = elim lt [ ]
  count_mark e clear (suc n) lt = ground (arith, h n, count_away n, count_mark e clear n)

  -- Clearing an index that was marked takes one off.
  pub count_clear : v ≡ false → f i ≡ true → (n : ℕ) → i < n → count g n + 1 ≡ count f n
  unfolding count
  count_clear e marked zero lt = elim lt [ ]
  count_clear e marked (suc n) lt = ground (arith, h n, count_away n, count_clear e marked n)

pub extend :
    (f : ℕ → Bool) (i : ℕ)
    → f i ≡ true
    → ((j : ℕ) → j < i → f j ≡ true)
    → (j : ℕ) → j < i + 1
    → f j ≡ true
extend f i full below j h = ground (arith, below j, full)
