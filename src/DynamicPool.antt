-- ===== src/DynamicPool.antt =====
-- plugin/src/dynamic_pool.c: the addresses from `start` to `end`, with a bitmap of those in use.
-- The bitmap is the allocated array of bytes: an access outside it is a fault. The pool's own mutex
-- makes each operation one step, so it leaves no trace here.
pub mod Bytes
pub mod Bitmap
pub mod Count
pub mod Valid
pub mod Acquire
pub mod Release
pub mod Member
pub mod Drain
pub mod Keeps
pub mod Overrun
use strongswan_plugin_vpn_cu.Base.{
  ℕ, zero, suc, ◌+◌, ◌-◌, ◌/◌, ◌%◌, ◌^◌, bit_and, bit_or, Bool, true, false, not, ◌&&◌, ◌||◌,
  Option, none, some, List, [], ◌∷◌, Run, ok, fault, bad_index, ◌>>=◌, ltb, leb, ◌==◌,
  if◌then◌else◌, set, length, replicate,
}
use strongswan_plugin_vpn_cu.Host.{HostLib, af_inet, host_to_u32, u32_to_host}

pub record DynamicPool (H : Type 0) : Type 0 where
  pub start : H
  pub end : H
  pub start_h : ℕ
  pub end_h : ℕ
  pub capacity : ℕ
  pub bits : List ℕ
  pub used : ℕ

-- `bits[n]`
unfoldable pub at : List ℕ → ℕ → Run ℕ
at [] n = fault bad_index
at (b ∷ bs) zero = ok b
at (b ∷ bs) (suc n) = at bs n

abbrev pub bit : ℕ → ℕ → Bool
bit b k = not (bit_and b (2 ^ k) == 0)

-- `bits[i / 8] & (1 << (i % 8))`
unfoldable pub test_bit : List ℕ → ℕ → Run Bool
test_bit bits i = do b ← at bits (i / 8); ok (bit b (i % 8))

-- `bits[i / 8] |= (1 << (i % 8))`
unfoldable pub set_bit : List ℕ → ℕ → Run (List ℕ)
set_bit bits i = do b ← at bits (i / 8); ok (set bits (i / 8) (bit_or b (2 ^ (i % 8))))

-- `bits[i / 8] &= ~(1 << (i % 8))`
unfoldable pub clear_bit : List ℕ → ℕ → Run (List ℕ)
clear_bit bits i = do b ← at bits (i / 8); ok (set bits (i / 8) (bit_and b (255 - 2 ^ (i % 8))))

module _ (lib : HostLib) where
  open lib use {Host, get_family, clone}

  -- The body of the `for` loop from `i` on, with the rounds that are left.
  unfoldable pub scan : ℕ → ℕ → DynamicPool Host → Run (Option Host × DynamicPool Host)
  scan zero i this = ok (none, this)
  scan (suc rounds) i this =
      let rest = scan rounds (i + 1) this in
      test_bit this.bits i >>= λ taken.
      if taken
      then rest
      else set_bit this.bits i >>= λ bits. ok (
        u32_to_host lib ((this.start_h + i) % 2 ^ 32),
        record this { bits = bits; used = (this.used + 1) % 2 ^ 32 },
      )

  unfoldable pub acquire : DynamicPool Host → Run (Option Host × DynamicPool Host)
  acquire this = if ltb this.used this.capacity then scan this.capacity 0 this else ok (none, this)

  -- The rest of `release` for the index `i`.
  unfoldable pub free_index : ℕ → DynamicPool Host → Run (DynamicPool Host)
  free_index i this = test_bit this.bits i >>= λ taken.
      if taken
      then clear_bit this.bits i >>= (λ bits. ok (record this {
        bits = bits;
        used = (if ltb 0 this.used then this.used - 1 else this.used);
      }))
      else ok this

  -- `ip` is NULL where it is `none`.
  unfoldable pub release : Option Host → DynamicPool Host → Run (DynamicPool Host)
  release none this = ok this
  release (some ip) this =
      let v = host_to_u32 lib ip in
      if not (get_family ip == af_inet)
      then ok this
      else (if ltb v this.start_h || ltb this.end_h v
          then ok this
          else free_index (v - this.start_h) this)

  unfoldable pub is_in_pool : Option Host → DynamicPool Host → Bool
  is_in_pool none this = false
  is_in_pool (some ip) this =
      let v = host_to_u32 lib ip in
      if not (get_family ip == af_inet) then false else leb this.start_h v && leb v this.end_h

  -- The getters `capacity` and `used`.
  unfoldable pub get_capacity : DynamicPool Host → ℕ
  get_capacity this = this.capacity

  unfoldable pub get_used : DynamicPool Host → ℕ
  get_used this = this.used

  -- `e - s + 1` in 32 bits, for `s` and `e` in order.
  abbrev pub range_size : ℕ → ℕ → ℕ
  range_size s e = (e - s + 1) % 2 ^ 32

  -- What `INIT` builds; the bitmap has `(cap + 7) / 8` bytes, computed in 32 bits.
  unfoldable pub fresh_pool : Host → Host → ℕ → ℕ → DynamicPool Host
  fresh_pool start end s e = record {
    start = clone start;
    end = clone end;
    start_h = s;
    end_h = e;
    capacity = range_size s e;
    bits = replicate ((range_size s e + 7) % 2 ^ 32 / 8) 0;
    used = 0;
  }

  -- `calloc_ok` says whether the bitmap could be allocated.
  unfoldable pub dynamic_pool_create : Bool → Option Host → Option Host → Option (DynamicPool Host)
  unfolding fresh_pool
  dynamic_pool_create calloc_ok none end = none
  dynamic_pool_create calloc_ok (some start) none = none
  dynamic_pool_create calloc_ok (some start) (some end) =
      let s = host_to_u32 lib start in
      let e = host_to_u32 lib end in
      if not (get_family start == af_inet) || not (get_family end == af_inet)
      then none
      else (if ltb e s then none else (if calloc_ok then some (fresh_pool start end s e) else none))
