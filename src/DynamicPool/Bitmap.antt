-- ===== src/DynamicPool/Bitmap.antt =====
-- The bitmap of plugin/src/dynamic_pool.c as a set of indices: reads and writes inside the array do
-- not fault, and change the membership of the one index.
use strongswan_plugin_vpn_cu.Base.{
  ℕ, zero, suc, ◌*◌, ◌/◌, ◌%◌, ◌<◌, ◌≡◌, refl, Bool, true, false, List, [], ◌∷◌, ok, arith, ◌==◌,
  if◌then◌else◌, length, get_or, set, replicate, All, length-set, get_or-replicate,
}
use strongswan_plugin_vpn_cu.DynamicPool.{at, bit, test_bit, set_bit, clear_bit}
use strongswan_plugin_vpn_cu.DynamicPool.Bytes.{bit-set, bit-clear, bit-zero, set-lt, clear-lt}

abbrev pub IsBytes : List ℕ → Type 0
IsBytes = All (λ b. b < 256)

-- Whether the index `i` is marked.
pub is_set : List ℕ → ℕ → Bool
is_set bits i = bit (get_or bits (i / 8) 0) (i % 8)

at-get_or : (bits : List ℕ) (n : ℕ) → n < length bits → at bits n ≡ ok (get_or bits n 0)
unfolding at
at-get_or [] n h = elim h [ ]
at-get_or (b ∷ bs) zero h = refl
at-get_or (b ∷ bs) (suc n) h = at-get_or bs n (omega arith)

get_or-set :
    (bits : List ℕ) (n m v : ℕ)
    → n < length bits
    → get_or (set bits n v) m 0 ≡ (if n == m then v else get_or bits m 0)
get_or-set [] n m v h = elim h [ ]
get_or-set (b ∷ bs) zero zero v h = refl
get_or-set (b ∷ bs) zero (suc m) v h = ground arith
get_or-set (b ∷ bs) (suc n) zero v h = ground arith
get_or-set (b ∷ bs) (suc n) (suc m) v h = ground (arith, get_or-set bs n m v)

get_or-lt : (bits : List ℕ) (n : ℕ) → IsBytes bits → get_or bits n 0 < 256
get_or-lt [] n h = omega arith
get_or-lt (b ∷ bs) zero h = h.0
get_or-lt (b ∷ bs) (suc n) h = get_or-lt bs n h.1

set-IsBytes : (bits : List ℕ) (n v : ℕ) → v < 256 → IsBytes bits → IsBytes (set bits n v)
set-IsBytes [] n v small h = tt
set-IsBytes (b ∷ bs) zero v small h = (small, h.1)
set-IsBytes (b ∷ bs) (suc n) v small h = (h.0, set-IsBytes bs n v small h.1)

-- `after` differs from `before` in the index `i` alone, which is `v` there.
pub record Changes (before : List ℕ) (i : ℕ) (v : Bool) (after : List ℕ) : Type 0 where
  pub size : length after ≡ length before
  pub bytes : IsBytes after
  pub reads : (j : ℕ) → is_set after j ≡ (if i == j then v else is_set before j)

module _ (bits : List ℕ) (i : ℕ) (inside : i < 8 * length bits) where
  pub test_bit_lem : test_bit bits i ≡ ok (is_set bits i)
  unfolding test_bit is_set
  test_bit_lem = rw (at-get_or bits (i / 8) (omega arith))

  module _ (bytes : IsBytes bits) where
    abbrev home : ℕ
    home = get_or bits (i / 8) 0

    set_reads :
        (v : Bool) (b : ℕ)
        → ((k : ℕ) → k < 8 → bit b k ≡ (if i % 8 == k then v else bit home k))
        → (j : ℕ) → is_set (set bits (i / 8) b) j ≡ (if i == j then v else is_set bits j)
    unfolding is_set
    set_reads v b row j =
        rw (get_or-set bits (i / 8) (j / 8) b (omega arith))
          (ground (arith, row (j % 8) (omega arith)))

    pub set_bit_lem : (after : List ℕ) × (set_bit bits i ≡ ok after) × Changes bits i true after
    unfolding set_bit
    set_bit_lem =
        let low : i % 8 < 8 = omega arith in
        let byte = get_or-lt bits (i / 8) bytes in
        (
          _,
          rw (at-get_or bits (i / 8) (omega arith)),
          record {
            size = length-set bits (i / 8) _;
            bytes = set-IsBytes bits (i / 8) _ (set-lt home (i % 8) byte low) bytes;
            reads = set_reads true _ (λ k h. ground (arith, bit-set home (i % 8) byte low k h));
          },
        )

    pub clear_bit_lem :
        (after : List ℕ) × (clear_bit bits i ≡ ok after) × Changes bits i false after
    unfolding clear_bit
    clear_bit_lem =
        let low : i % 8 < 8 = omega arith in
        let byte = get_or-lt bits (i / 8) bytes in
        (
          _,
          rw (at-get_or bits (i / 8) (omega arith)),
          record {
            size = length-set bits (i / 8) _;
            bytes = set-IsBytes bits (i / 8) _ (clear-lt home (i % 8) byte low) bytes;
            reads = set_reads false _ (λ k h. ground (arith, bit-clear home (i % 8) byte low k h));
          },
        )

pub replicate-IsBytes : (n : ℕ) → IsBytes (replicate n 0)
replicate-IsBytes zero = tt
replicate-IsBytes (suc n) = (omega arith, replicate-IsBytes n)

pub is_set-replicate : (n i : ℕ) → is_set (replicate n 0) i ≡ false
unfolding is_set
is_set-replicate n i = rw (get_or-replicate {A = ℕ} n (i / 8) 0) (bit-zero (i % 8))
