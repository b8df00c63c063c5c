-- ===== src/Storage/Pool.antt =====
-- The memory of plugin/src/dynamic_pool.c: the pool, its bitmap and its two end points.
use strongswan_plugin_vpn_cu.Base.{
  ℕ, ◌+◌, ◌≡◌, refl, inl, inr, not, ◌||◌, ltb, ◌==◌, if◌then◌else◌, Bool-cases, Bool, true, false,
  Option, none, some, arith, Run, ok, ◌>>=◌, Returns,
}
use strongswan_plugin_vpn_cu.Env.{Ptr}
use strongswan_plugin_vpn_cu.Host.{HostLib, af_inet, host_to_u32}
use strongswan_plugin_vpn_cu.Storage.{Storage, malloc, free}
use strongswan_plugin_vpn_cu.Storage.Balance.{
  IsFresh, as_it_is, one, Balanced, Balanced-eq, malloc-Balanced, free-Balanced,
}

pub record DynamicPool : Type 0 where
  pub self : Ptr
  pub start : Ptr
  pub end : Ptr
  pub bits : Ptr

-- From the clones of the end points on; without memory for the bitmap all is given back.
pub with_bits : Bool → Ptr → Ptr → Ptr → Storage → Run (Option DynamicPool × Storage)
with_bits true self start end m =
    let (bits, m) = malloc m in
    ok (some (record { self = self; start = start; end = end; bits = bits }), m)
with_bits false self start end m = do
  m ← free start m
  m ← free end m
  m ← free self m
  ok (none, m)

module _ (lib : HostLib) where
  open lib use {Host, get_family}

  -- The tests on the two end points.
  pub refused : Option Host → Option Host → Bool
  refused none end = true
  refused (some start) none = true
  refused (some start) (some end) =
      not (get_family start == af_inet)
      || not (get_family end == af_inet)
      || ltb (host_to_u32 lib end) (host_to_u32 lib start)

  -- `calloc_ok` says whether there is memory for the bitmap.
  unfoldable pub dynamic_pool_create :
      Bool → Option Host → Option Host → Storage → Run (Option DynamicPool × Storage)
  unfolding refused with_bits
  dynamic_pool_create calloc_ok start end m =
      if refused start end
      then ok (none, m)
      else (let (self, m) = malloc m in
          let (start, m) = malloc m in
          let (end, m) = malloc m in with_bits calloc_ok self start end m)

unfoldable pub dynamic_pool_destroy : DynamicPool → Storage → Run Storage
dynamic_pool_destroy this m = do
  m ← free this.bits m
  m ← free this.start m
  m ← free this.end m
  free this.self m

-- A pool that was created is destroyed.
pub end_pool : Option DynamicPool × Storage → Run Storage
end_pool (none, m) = ok m
end_pool (some p, m) = dynamic_pool_destroy p m

-- The blocks of a pool, if there is one.
pub blocks : Option DynamicPool → Ptr → ℕ
blocks none q = 0
blocks (some p) q = one p.self q + one p.start q + one p.end q + one p.bits q

with_bits-Balanced :
    (own : Ptr → ℕ) (calloc_ok : Bool) (self start end : Ptr) (m : Storage)
    → Balanced (λ q. own q + one self q + one start q + one end q) m
    → Returns (with_bits calloc_ok self start end m) (λ r. Balanced (λ q. own q + blocks r.0 q) r.1)
unfolding with_bits blocks
with_bits-Balanced own true self start end m b =
    (_, refl, Balanced-eq _ _ _ (malloc-Balanced _ m b) (λ q. omega arith))
with_bits-Balanced own false self start end m b =
    let own1 = λ (q : Ptr). own q + one self q in
    let own2 = λ (q : Ptr). own1 q + one end q in
    let (m1, ran1, b1) = free-Balanced own2 start m (Balanced-eq _ _ m b (λ q. omega arith)) in
    let (m2, ran2, b2) = free-Balanced own1 end m1 b1 in
    let (m3, ran3, b3) = free-Balanced own self m2 b2 in
    ((none, m3), rw (ran1, ran2, ran3), Balanced-eq _ _ m3 b3 (λ q. omega arith))

module _ (lib : HostLib) where
  open lib use {Host}

  create-Balanced :
      (own : Ptr → ℕ) (calloc_ok : Bool) (start end : Option Host) (m : Storage)
      → Balanced own m
      → Returns
          (dynamic_pool_create lib calloc_ok start end m)
          (λ r. Balanced (λ q. own q + blocks r.0 q) r.1)
  unfolding dynamic_pool_create
  create-Balanced own calloc_ok start end m b = elim (Bool-cases (refused lib start end)) [
    | inl bad ↦ ((none, m), rw bad, Balanced-eq own _ m b (λ q. unfold blocks in omega arith))
    | inr good ↦
        let m1 = (malloc m).1 in
        let m2 = (malloc m1).1 in
        let b1 = malloc-Balanced own m b in
        let b2 = malloc-Balanced _ m1 b1 in
        let b3 = malloc-Balanced _ m2 b2 in rw good (with_bits-Balanced own calloc_ok _ _ _ _ b3)
  ]

  destroy-Balanced :
      (own : Ptr → ℕ) (p : DynamicPool) (m : Storage)
      → Balanced (λ q. own q + blocks (some p) q) m
      → Returns (dynamic_pool_destroy p m) (Balanced own)
  unfolding dynamic_pool_destroy blocks
  destroy-Balanced own p m b =
      let own1 = λ (q : Ptr). own q + one p.self q in
      let own2 = λ (q : Ptr). own1 q + one p.end q in
      let own3 = λ (q : Ptr). own2 q + one p.start q in
      let (m1, ran1, b1) = free-Balanced own3 p.bits m (Balanced-eq _ _ m b (λ q. omega arith)) in
      let (m2, ran2, b2) = free-Balanced own2 p.start m1 b1 in
      let (m3, ran3, b3) = free-Balanced own1 p.end m2 b2 in
      let (m4, ran4, b4) = free-Balanced own p.self m3 b3 in (m4, rw (ran1, ran2, ran3) ran4, b4)

  end_pool-Balanced :
      (own : Ptr → ℕ) (o : Option DynamicPool) (m : Storage)
      → Balanced (λ q. own q + blocks o q) m
      → Returns (end_pool (o, m)) (Balanced own)
  unfolding end_pool
  end_pool-Balanced own none m b =
      (m, refl, Balanced-eq _ own m b (λ q. unfold blocks in omega arith))
  end_pool-Balanced own (some p) m b = destroy-Balanced own p m b

  -- In a memory in which no block ahead of `malloc` is allocated, `dynamic_pool_create` and then,
  -- if there is a pool, `dynamic_pool_destroy` free no block that is not allocated and leave the
  -- memory as it was, also where an end point is refused or the bitmap cannot be allocated.
  pub create-destroy :
      (calloc_ok : Bool) (start end : Option Host) (m : Storage)
      → IsFresh m
      → Returns
          (dynamic_pool_create lib calloc_ok start end m >>= end_pool)
          (λ m'. (q : Ptr) → m'.live q ≡ m.live q)
  create-destroy calloc_ok start end m fresh =
      let ((o, m1), ran1, b1) = create-Balanced _ calloc_ok start end m (as_it_is m fresh) in
      let (m2, ran2, b2) = end_pool-Balanced _ o m1 b1 in
      (m2, rw ran1 ran2, λ q. ground (arith, b2.exact q))
