-- ===== src/Storage/Loader/Pairs.antt =====
-- What a key and its value make `yaml_load_policy` of plugin/src/yaml_loader.c allocate and free.
use strongswan_plugin_vpn_cu.Base.{
  ℕ, ◌+◌, ◌≤◌, ◌≡◌, refl, ◌⊎◌, inl, inr, true, false, Option, none, some, arith, Bool-cases, Name,
  streq, streq_refl, Returns,
}
use strongswan_plugin_vpn_cu.Env.{Ptr}
use strongswan_plugin_vpn_cu.Host.{HostLib}
use strongswan_plugin_vpn_cu.Storage.{Storage}
use strongswan_plugin_vpn_cu.Storage.Balance.{
  one, maybe_one, Balanced, Balanced-eq, malloc-Balanced, free-Balanced,
}
use strongswan_plugin_vpn_cu.Storage.Fixed.{KeyTable, FixedPool, Entry}
use strongswan_plugin_vpn_cu.Storage.Fixed.Blocks.{add-Balanced, blocks, has, present, Keeps}
use strongswan_plugin_vpn_cu.Storage.Loader.{Loader, made, add_parsed, pair}
use strongswan_plugin_vpn_cu.Storage.Loader.Given.{is_text, pair_users, pair_end}
use strongswan_plugin_vpn_cu.YamlLoader.{
  State, top, in_users, in_user, in_pool, start_key, end_key, ip_key,
}

abbrev pub filled : Option Ptr → ℕ
filled none = 0
filled (some p) = 1

made-Balanced :
    {H : Type 0} (own : Ptr → ℕ) (h : Option H) (m : Storage)
    → Balanced own m
    → Balanced (λ q. own q + maybe_one (made h m).0 q) (made h m).1
unfolding made
made-Balanced own none m b = Balanced-eq own _ m b (λ q. omega arith)
made-Balanced own (some h) m b = malloc-Balanced own m b

filled-le : (o : Option Ptr) → filled o ≤ 1
filled-le none = omega arith
filled-le (some p) = omega arith

absent : (o : Option Entry) → present o ≤ 0 → o ≡ none
absent none e = refl
absent (some a) e = absurd (omega arith)

unfilled : (o : Option Ptr) (q : Ptr) → filled o ≤ 0 → maybe_one o q ≡ 0
unfilled none q le = refl
unfilled (some p) q le = absurd (omega arith)

module _ (lib : KeyTable) (hosts : HostLib) where
  abbrev pub held : Loader lib → Ptr → ℕ
  held l q = blocks lib l.fixed q + maybe_one l.pool_start q + maybe_one l.pool_end q

  -- The library's `put` keeps the key of a pair that it finds, or no user is to have two addresses:
  -- `g` is what each user is still given.
  abbrev pub Safe : (Name → ℕ) → Loader lib → Type 0
  Safe g l = (lib.put_replaces_key ≡ false) ⊎ ((n : Name) → g n + has lib l.fixed n ≤ 1)

  -- A pair of a key and a value: `lost` is the end point that was overwritten.
  pub record Paired (own : Ptr → ℕ) (st : State) (key : Name) (l : Loader lib)
      (r : Loader lib × Storage) : Type 0 where
    pub lost : Ptr → ℕ
    pub balanced : Balanced (λ q. own q + held r.0 q + lost q) r.1
    pub none_lost :
        pair_end start_key st key + filled l.pool_start ≤ 1
        → pair_end end_key st key + filled l.pool_end ≤ 1
        → (q : Ptr) → lost q ≡ 0
    pub start : filled r.0.pool_start ≤ pair_end start_key st key + filled l.pool_start
    pub end : filled r.0.pool_end ≤ pair_end end_key st key + filled l.pool_end
    pub users :
        (n : Name) → has lib r.0.fixed n ≤ pair_users st key l.cur_user n + has lib l.fixed n
    pub same_state : r.0.st ≡ l.st
    pub user : r.0.cur_user ≡ l.cur_user

  -- Who is given an address has none, unless the library keeps the key.
  first_address :
      (key : Name) (l : Loader lib)
      → streq key ip_key ≡ true
      → Safe (pair_users in_user key l.cur_user) l
      → Keeps lib (lib.table.get l.fixed.users l.cur_user)
  first_address key l is_ip (inl keeps) = inl keeps
  first_address key l is_ip (inr few) = inr (
      absent (lib.table.get l.fixed.users l.cur_user) (
        let once = few l.cur_user in
        let once' = rw (is_ip, streq_refl l.cur_user) at once in omega (arith)))

  add_parsed-Balanced :
      (own : Ptr → ℕ) (user : Name) (ip : Option Ptr) (fixed : FixedPool lib) (m : Storage)
      → Keeps lib (lib.table.get fixed.users user)
      → Balanced (λ q. own q + blocks lib fixed q + maybe_one ip q) m
      → Returns (add_parsed lib hosts user ip fixed m) (λ r.
        Balanced (λ q. own q + blocks lib r.0 q) r.1
        × ((n : Name) → has lib r.0 n ≤ is_text n user + has lib fixed n))
  unfolding add_parsed
  add_parsed-Balanced own user none fixed m keeps b =
      ((fixed, m), refl, (Balanced-eq _ _ m b (λ q. omega arith), λ n. omega arith))
  add_parsed-Balanced own user (some ip) fixed m keeps b =
      let ((rc, fixed', m1), ran1, (b1, more)) =
        add-Balanced lib (λ q. own q + one ip q) user ip fixed m keeps
          (Balanced-eq _ _ m b (λ q. omega arith)) in
      let (m2, ran2, b2) =
        free-Balanced (λ q. own q + blocks lib fixed' q) ip m1
          (Balanced-eq _ _ m1 b1 (λ q. omega arith)) in
      ((fixed', m2), rw (ran1, ran2), (b2, more))

  -- Nothing is done.
  nothing_lost :
      (own : Ptr → ℕ) (st : State) (key : Name) (l : Loader lib) (m : Storage)
      → Balanced (λ q. own q + held l q) m
      → Paired own st key l (l, m)
  nothing_lost own st key l m b = record {
    lost = λ q. 0;
    balanced = Balanced-eq _ _ m b (λ q. omega arith);
    none_lost = λ _ _ q. refl;
    start = omega arith;
    end = omega arith;
    users = λ n. omega arith;
    same_state = refl;
    user = refl;
  }

  pub pair-Paired :
      (own : Ptr → ℕ) (st : State) (key val : Name) (l : Loader lib) (m : Storage)
      → Safe (pair_users st key l.cur_user) l
      → Balanced (λ q. own q + held l q) m
      → Returns (pair lib hosts st key val l m) (Paired own st key l)
  unfolding pair
  pair-Paired own top key val l m safe b = ((l, m), refl, nothing_lost own top key l m b)
  pair-Paired own in_users key val l m safe b = ((l, m), refl, nothing_lost own in_users key l m b)
  pair-Paired own in_user key val l m safe b = elim (Bool-cases (streq key ip_key)) [
    | inr no_ip ↦ ((l, m), rw no_ip, nothing_lost own in_user key l m b)
    | inl is_ip ↦
        let ip = made (hosts.host_create_from_string val 0) m in
        let rest = λ (q : Ptr). own q + maybe_one l.pool_start q + maybe_one l.pool_end q in
        let ((fixed, m'), ran, (b', more)) =
          add_parsed-Balanced rest l.cur_user ip.0 l.fixed ip.1 (first_address key l is_ip safe)
            (Balanced-eq _ _ ip.1 (made-Balanced _ _ m b) (λ q. omega arith)) in
        let l' : Loader lib = record l { fixed = fixed } in
        (
          (l', m'),
          rw (is_ip, ran),
          record {
            lost = λ q. 0;
            balanced = Balanced-eq _ _ m' b' (λ q. omega arith);
            none_lost = λ _ _ q. refl;
            start = omega arith;
            end = omega arith;
            users = λ n. rw is_ip (more n);
            same_state = refl;
            user = refl;
          },
        )
  ]
  pair-Paired own in_pool key val l m safe b =
      let h = made (hosts.host_create_from_string val 0) m in
      let b' = made-Balanced _ _ m b in
      elim (Bool-cases (streq key start_key)) [
        | inl is_start ↦ (
          (record l { pool_start = h.0 }, h.1),
          rw is_start,
          record {
            lost = maybe_one l.pool_start;
            balanced = Balanced-eq _ _ h.1 b' (λ q. omega arith);
            none_lost = λ one_start _ q. unfilled l.pool_start q (ground arith);
            start = ground (arith, filled-le h.0);
            end = omega arith;
            users = λ n. omega arith;
            same_state = refl;
            user = refl;
          },
        )
        | inr not_start ↦ elim (Bool-cases (streq key end_key)) [
          | inl is_end ↦ (
            (record l { pool_end = h.0 }, h.1),
            rw (not_start, is_end),
            record {
              lost = maybe_one l.pool_end;
              balanced = Balanced-eq _ _ h.1 b' (λ q. omega arith);
              none_lost = λ _ one_end q. unfilled l.pool_end q (ground arith);
              start = omega arith;
              end = ground (arith, filled-le h.0);
              users = λ n. omega arith;
              same_state = refl;
              user = refl;
            },
          )
          | inr not_end ↦ ((l, m), rw (not_start, not_end), nothing_lost own in_pool key l m b)
        ]
      ]
