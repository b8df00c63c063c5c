-- ===== src/AddressPool/Calls.antt =====
-- What any pool that keeps the contract of plugin/src/dynamic_pool.h does over a sequence of calls.
use mathlib.Core.Path.{subst}
use strongswan_plugin_vpn_cu.AddressPool.{AddressPool, Contract}
use strongswan_plugin_vpn_cu.Base.{
  ℕ, ◌+◌, ◌≤◌, ◌≡◌, refl, sym, ◌∙◌, inl, inr, Bool, true, false, none, some, List, [], ◌∷◌, arith,
  ◌==◌, if◌then◌else◌, Bool-cases, length, ok, Returns-at, ok-injective, ap,
}
use strongswan_plugin_vpn_cu.Host.{HostLib, host_to_u32}

abbrev pub mem : ℕ → List ℕ → Bool
mem a [] = false
mem a (x ∷ xs) = if x == a then true else mem a xs

abbrev pub Unique : List ℕ → Type 0
Unique [] = Unit {0}
Unique (x ∷ xs) = (mem x xs ≡ false) × Unique xs

abbrev pub without : ℕ → List ℕ → List ℕ
without a [] = []
without a (x ∷ xs) = let rest = without a xs in if x == a then rest else x ∷ rest

mem-without : (a b : ℕ) (xs : List ℕ) → mem b (without a xs) ≡ (if a == b then false else mem b xs)
mem-without a b [] = ground arith
mem-without a b (x ∷ xs) = ground (arith, mem-without a b xs)

without_absent : (a : ℕ) (xs : List ℕ) → mem a xs ≡ false → without a xs ≡ xs
without_absent a [] e = refl
without_absent a (x ∷ xs) e = ground (arith, without_absent a xs)

without-Unique : (a : ℕ) (xs : List ℕ) → Unique xs → Unique (without a xs)
without-Unique a [] u = tt
without-Unique a (x ∷ xs) u = ground (arith, without-Unique a xs u.1, mem-without a x xs)

length-without :
    (a : ℕ) (xs : List ℕ)
    → Unique xs
    → length (without a xs) + (if mem a xs then 1 else 0) ≡ length xs
length-without a [] u = refl
length-without a (x ∷ xs) u = elim (Bool-cases (x == a)) [
  | inl same ↦
      let absent : mem a xs ≡ false = ground (arith, u.0) in
      ground (arith, ap length (without_absent a xs absent), absent)
  | inr other ↦ ground (arith, length-without a xs u.1)
]

module _ {lib : HostLib} (pool : AddressPool lib) where
  open pool use {Self, acquire, release, is_in_pool, capacity, used}

  -- The pools that some calls make of `p`, with the addresses that are out. Only a call that returns
  -- hands out or takes back.
  pub data Calls (p : Self) : Self → List ℕ → Type 0 where
    start : Calls p p []
    got :
        {q : Self} {out : List ℕ} (h : lib.Host) (q' : Self) (out' : List ℕ)
        → Calls p q out
        → acquire q ≡ ok (some h, q')
        → out' ≡ host_to_u32 lib h ∷ out
        → Calls p q' out'
    refused :
        {q : Self} {out : List ℕ} (q' : Self)
        → Calls p q out
        → acquire q ≡ ok (none, q')
        → Calls p q' out
    gave :
        {q : Self} {out : List ℕ} (ip : lib.Host) (q' : Self) (out' : List ℕ)
        → Calls p q out
        → is_in_pool (some ip) q ≡ true
        → release (some ip) q ≡ ok q'
        → out' ≡ without (host_to_u32 lib ip) out
        → Calls p q' out'
    ignored :
        {q : Self} {out : List ℕ} (ip : lib.Host) (q' : Self)
        → Calls p q out
        → is_in_pool (some ip) q ≡ false
        → release (some ip) q ≡ ok q'
        → Calls p q' out

  module _ (law : Contract pool) where
    open law use {IsGood, held}

    -- The addresses that are out are the ones that the pool holds, each once, and `used` is their
    -- number.
    pub record Tracks (p q : Self) (out : List ℕ) : Type 0 where
      pub good : IsGood q
      pub holds : (a : ℕ) → held q a ≡ mem a out
      pub unique : Unique out
      pub counted : used q ≡ length out
      pub size : capacity q ≡ capacity p

    got-Tracks :
        (p q q' : Self) (h : lib.Host) (out : List ℕ)
        → Tracks p q out
        → acquire q ≡ ok (some h, q')
        → Tracks p q' (host_to_u32 lib h ∷ out)
    got-Tracks p q q' h out t ran = elim (Returns-at _ _ (law.acquire_lem q t.good) ran) [
      | inl (e, _, _) ↦ absurd (cc)
      | inr (h', e, _, free, now, more, _, same, good) ↦
          let hh : h ≡ h' = ground arith in
          record {
            good = good;
            holds = λ a. ground (arith, now a, t.holds a, ap (host_to_u32 lib) hh);
            unique =
                (ground (arith, t.holds (host_to_u32 lib h'), ap (host_to_u32 lib) hh), t.unique);
            counted = omega (arith, t.counted);
            size = same ∙ t.size;
          }
    ]

    gave-Tracks :
        (p q q' : Self) (ip : lib.Host) (out : List ℕ)
        → Tracks p q out
        → is_in_pool (some ip) q ≡ true
        → release (some ip) q ≡ ok q'
        → Tracks p q' (without (host_to_u32 lib ip) out)
    gave-Tracks p q q' ip out t inside ran =
        let (now, fewer, _, same, good) = Returns-at _ _ (law.release_lem q ip t.good inside) ran in
        let a = host_to_u32 lib ip in
        record {
          good = good;
          holds = λ b. ground (arith, now b, t.holds b, mem-without a b out);
          unique = without-Unique a out t.unique;
          counted = ground (arith, t.counted, t.holds a, length-without a out t.unique);
          size = same ∙ t.size;
        }

    kept-Tracks : (p q q' : Self) (out : List ℕ) → Tracks p q out → q' ≡ q → Tracks p q' out
    kept-Tracks p q q' out t e = subst (λ r. Tracks p r out) (sym e) t

    tracked :
        {p q : Self} {out : List ℕ}
        → IsGood p
        → ((a : ℕ) → held p a ≡ false)
        → used p ≡ 0
        → Calls p q out
        → Tracks p q out
    tracked good free none_used start = record {
      good = good;
      holds = free;
      unique = tt;
      counted = none_used;
      size = refl;
    }
    tracked {p} good free none_used (got {q = q} {out = out} h q' out' c ran e) =
        rw e (got-Tracks p q q' h out (tracked good free none_used c) ran)
    tracked {p} good free none_used (refused {q = q} {out = out} q' c ran) =
        let t = tracked good free none_used c in
        elim (Returns-at _ _ (law.acquire_lem q t.good) ran) [
          | inl (_, e, _) ↦ kept-Tracks p q q' out t e
          | inr r ↦ absurd (let e = r.1 in cc)
        ]
    tracked {p} good free none_used (gave {q = q} {out = out} ip q' out' c inside ran e) =
        rw e (gave-Tracks p q q' ip out (tracked good free none_used c) inside ran)
    tracked {p} good free none_used (ignored {q = q} {out = out} ip q' c outside ran) =
        let t = tracked good free none_used c in
        kept-Tracks p q q' out t (ok-injective (sym ran ∙ law.release_foreign q ip t.good outside))

    -- Over any sequence of calls of a pool that keeps the contract, from a pool that has handed out
    -- nothing on: the addresses that are out are the ones that the pool holds, no address is out
    -- twice, `used` is the number of those that are out, and there are at most `capacity` of them.
    pub Calls-Tracks :
        {p q : Self} {out : List ℕ}
        → IsGood p
        → ((a : ℕ) → held p a ≡ false)
        → used p ≡ 0
        → Calls p q out
        → Tracks p q out × (length out ≤ capacity p)
    Calls-Tracks {p} {q} good free none_used c =
        let t = tracked good free none_used c in
        (t, omega (arith, t.counted, t.size, law.used-le-capacity q t.good))
