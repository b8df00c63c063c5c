-- ===== src/DynamicPool/Bytes.antt =====
-- The bit operations that plugin/src/dynamic_pool.c makes on one byte of the bitmap.
use Prim.Native.Nat.{bit_and-bitwise}
use strongswan_plugin_vpn_cu.Base.{
  ℕ, zero, suc, ◌-◌, ◌^◌, ◌<◌, ◌≡◌, refl, bit_and, bit_or, Bool, true, false, not, ◌&&◌, ◌||◌,
  arith, ltb, ◌==◌,
}
use strongswan_plugin_vpn_cu.DynamicPool.{bit}

all_below : ℕ → (ℕ → Bool) → Bool
all_below zero p = true
all_below (suc n) p = p n && all_below n p

all_below_sound : (n : ℕ) (p : ℕ → Bool) → all_below n p ≡ true → (x : ℕ) → x < n → p x ≡ true
unfolding all_below
all_below_sound zero p h x lt = absurd (omega arith)
all_below_sound (suc n) p h x lt = ground (arith, all_below_sound n p _ x)

abbrev same : Bool → Bool → Bool
same true b = b
same false b = not b

same-eq : (a b : Bool) → same a b ≡ true → a ≡ b
same-eq true true h = refl
same-eq true false h = cc
same-eq false false h = refl
same-eq false true h = cc

abbrev set_row : ℕ → ℕ → ℕ → Bool
set_row b k j = same (bit (bit_or b (2 ^ k)) j) (k == j || bit b j)

abbrev clear_row : ℕ → ℕ → ℕ → Bool
clear_row b k j = same (bit (bit_and b (255 - 2 ^ k)) j) (not (k == j) && bit b j)

abbrev range_row : ℕ → ℕ → Bool
range_row b k = ltb (bit_or b (2 ^ k)) 256 && ltb (bit_and b (255 - 2 ^ k)) 256

set_table : all_below 256 (λ b. all_below 8 (λ k. all_below 8 (λ j. set_row b k j))) ≡ true
unfolding all_below
set_table = refl

clear_table : all_below 256 (λ b. all_below 8 (λ k. all_below 8 (λ j. clear_row b k j))) ≡ true
unfolding all_below
clear_table = refl

range_table : all_below 256 (λ b. all_below 8 (λ k. range_row b k)) ≡ true
unfolding all_below
range_table = refl

module _ (b k : ℕ) (byte : b < 256) (low : k < 8) where
  pub bit-set : (j : ℕ) → j < 8 → bit (bit_or b (2 ^ k)) j ≡ (k == j || bit b j)
  bit-set j h =
      same-eq _ _ (
        all_below_sound 8 _ (all_below_sound 8 _ (all_below_sound 256 _ set_table b byte) k low) j
          h)

  pub bit-clear : (j : ℕ) → j < 8 → bit (bit_and b (255 - 2 ^ k)) j ≡ (not (k == j) && bit b j)
  bit-clear j h = same-eq _ _ (
      all_below_sound 8 _ (all_below_sound 8 _ (all_below_sound 256 _ clear_table b byte) k low) j
        h)

  pub set-lt : bit_or b (2 ^ k) < 256
  set-lt = ground (arith, all_below_sound 8 _ (all_below_sound 256 _ range_table b byte) k low)

  pub clear-lt : bit_and b (255 - 2 ^ k) < 256
  clear-lt = ground (arith, all_below_sound 8 _ (all_below_sound 256 _ range_table b byte) k low)

zero-bit_and : (b : ℕ) → bit_and 0 b ≡ 0
zero-bit_and b = bit_and-bitwise 0 b

pub bit-zero : (k : ℕ) → bit 0 k ≡ false
bit-zero k = rw (zero-bit_and (2 ^ k))
