-- ===== src/Storage/Loader/Loop.antt =====
-- What the loop of `yaml_load_policy` of plugin/src/yaml_loader.c allocates and frees.
use strongswan_plugin_vpn_cu.Base.{
  ℕ, ◌+◌, ◌≤◌, ◌≡◌, refl, ap, inl, inr, Bool, true, false, arith, ◌>>=◌, Returns,
}
use strongswan_plugin_vpn_cu.Env.{Ptr}
use strongswan_plugin_vpn_cu.Host.{HostLib}
use strongswan_plugin_vpn_cu.Storage.{Storage, malloc}
use strongswan_plugin_vpn_cu.Storage.Balance.{
  one, Balanced, Balanced-eq, malloc-Balanced, free-Balanced,
}
use strongswan_plugin_vpn_cu.Storage.Fixed.{KeyTable}
use strongswan_plugin_vpn_cu.Storage.Loader.{Loader, round, load_events}
use strongswan_plugin_vpn_cu.Storage.Loader.Given.{Cursor, Gain, gain, total_gain}
use strongswan_plugin_vpn_cu.Storage.Loader.Pairs.{filled, held, Safe}
use strongswan_plugin_vpn_cu.Storage.Loader.Rounds.{owned, cursor, Kept, step-Kept}
use strongswan_plugin_vpn_cu.YamlLoader.{
  Event, stream_end, mapping_start, mapping_end, other, scalar, Feed, failed, event,
}

module _ (lib : KeyTable) (hosts : HostLib) where
  abbrev pub own_all : Loader lib → Ptr → ℕ
  own_all = owned lib hosts

  abbrev pub own_held : Loader lib → Ptr → ℕ
  own_held = held lib hosts

  abbrev place : Loader lib → Cursor
  place = cursor lib hosts

  -- The rest of the file gives no user a second address, unless the library keeps the key.
  abbrev pub SafeFeed : Feed → Loader lib → Type 0
  SafeFeed feed l = Safe lib hosts (λ n. total_gain (λ g. g.users n) feed (place l)) l

  round-Kept :
      (own : Ptr → ℕ) (ev : Event) (l : Loader lib) (m : Storage)
      → Safe lib hosts (gain ev (place l)).users l
      → Balanced (λ q. own q + own_all l q) m
      → Returns (round lib hosts ev l m) (Kept lib hosts own (gain ev (place l)) l)
  unfolding round
  round-Kept own ev l m safe b =
      let block = (malloc m).0 in
      let ((l1, m1), ran1, k) =
        step-Kept lib hosts (λ q. own q + one block q) l (malloc m).1
          (Balanced-eq _ _ _ (malloc-Balanced _ m b) (λ q. omega arith)) ev safe in
      let (m2, ran2, b2) =
        free-Balanced (λ q. own q + own_all l1 q + k.lost q) block m1
          (Balanced-eq _ _ m1 k.balanced (λ q. omega arith)) in
      (
        (l1, m2),
        rw (ran1, ran2),
        record {
          lost = k.lost;
          balanced = b2;
          none_lost = k.none_lost;
          start = k.start;
          end = k.end;
          users = k.users;
          cursor_lem = k.cursor_lem;
        },
      )

  pub record Loaded (own : Ptr → ℕ) (feed : Feed) (l : Loader lib) (r : Bool × Loader lib × Storage)
      : Type 0 where
    pub lost : Ptr → ℕ
    pub balanced : Balanced (λ q. own q + own_all r.1 q + lost q) r.2
    pub none_lost :
        total_gain (λ g. g.start) feed (place l) + filled l.pool_start ≤ 1
        → total_gain (λ g. g.end) feed (place l) + filled l.pool_end ≤ 1
        → (q : Ptr) → lost q ≡ 0

  -- What the file gives is what the event gives and what the rest gives.
  abbrev Splits : Event → Feed → Cursor → Type 0
  Splits ev rest c =
      (of : Gain → ℕ)
      → total_gain of (event ev rest) c ≡ of (gain ev c) + total_gain of rest (gain ev c).next

  module _ (own : Ptr → ℕ) (ev : Event) (rest : Feed) (l l1 : Loader lib) (m1 : Storage)
      (k : Kept lib hosts own (gain ev (place l)) l (l1, m1))
      (splits : Splits ev rest (place l)) where
    parts :
        (of : Gain → ℕ)
        → total_gain of (event ev rest) (place l)
          ≡ of (gain ev (place l)) + total_gain of rest (place l1)
    parts of = omega (arith, splits of, ap (λ c. total_gain of rest c) k.cursor_lem)

    next-SafeFeed : SafeFeed (event ev rest) l → SafeFeed rest l1
    next-SafeFeed (inl keeps) = inl keeps
    next-SafeFeed (inr few) = inr (λ n. omega (arith, few n, k.users n, parts (λ g. g.users n)))

    -- A round, and then the rest of the loop.
    joined :
        (r : Bool × Loader lib × Storage)
        → Loaded (λ q. own q + k.lost q) rest l1 r
        → Loaded own (event ev rest) l r
    joined r w = record {
      lost = λ q. k.lost q + w.lost q;
      balanced = Balanced-eq _ _ r.2 w.balanced (λ q. omega arith);
      none_lost = λ one_start one_end q.
          let s = parts (λ g. g.start) in
          let e = parts (λ g. g.end) in
          let here = k.none_lost (omega (arith)) (omega (arith)) q in
          let there = w.none_lost (omega (arith, k.start)) (omega (arith, k.end)) q in omega arith;
    }

  first-Safe :
      (ev : Event) (rest : Feed) (l : Loader lib)
      → Splits ev rest (place l)
      → SafeFeed (event ev rest) l
      → Safe lib hosts (gain ev (place l)).users l
  first-Safe ev rest l splits (inl keeps) = inl keeps
  first-Safe ev rest l splits (inr few) = inr (λ n. omega (arith, few n, splits (λ g. g.users n)))

  next_round :
      (own : Ptr → ℕ) (ev : Event) (rest : Feed) (l : Loader lib) (m : Storage)
      → Splits ev rest (place l)
      → SafeFeed (event ev rest) l
      → Balanced (λ q. own q + own_all l q) m
      → ((own' : Ptr → ℕ) (l' : Loader lib) (m' : Storage)
          → SafeFeed rest l'
          → Balanced (λ q. own' q + own_all l' q) m'
          → Returns (load_events lib hosts rest l' m') (Loaded own' rest l'))
      → Returns
          (round lib hosts ev l m >>= λ r. load_events lib hosts rest r.0 r.1)
          (Loaded own (event ev rest) l)
  next_round own ev rest l m splits safe b again =
      let ((l1, m1), ran, k) = round-Kept own ev l m (first-Safe ev rest l splits safe) b in
      let (r, ran', w) =
        again (λ q. own q + k.lost q) l1 m1 (next-SafeFeed own ev rest l l1 m1 k splits safe)
          (Balanced-eq _ _ m1 k.balanced (λ q. omega arith)) in
      (r, rw ran ran', joined own ev rest l l1 m1 k splits r w)

  pub load_events-Loaded :
      (own : Ptr → ℕ) (feed : Feed) (l : Loader lib) (m : Storage)
      → SafeFeed feed l
      → Balanced (λ q. own q + own_all l q) m
      → Returns (load_events lib hosts feed l m) (Loaded own feed l)
  unfolding load_events
  load_events-Loaded own failed l m safe b = (
    (false, l, m),
    refl,
    record {
      lost = λ q. 0;
      balanced = Balanced-eq _ _ m b (λ q. omega arith);
      none_lost = λ _ _ q. refl;
    },
  )
  load_events-Loaded own (event stream_end rest) l m safe b =
      let ((l1, m1), ran, k) = round-Kept own stream_end l m safe b in
      (
        (true, l1, m1),
        rw ran,
        record { lost = k.lost; balanced = k.balanced; none_lost = k.none_lost },
      )
  load_events-Loaded own (event mapping_start rest) l m safe b =
      next_round own mapping_start rest l m (λ of. refl) safe b
        (λ own' l1 m1 safe1 b1. load_events-Loaded own' rest l1 m1 safe1 b1)
  load_events-Loaded own (event mapping_end rest) l m safe b =
      next_round own mapping_end rest l m (λ of. refl) safe b
        (λ own' l1 m1 safe1 b1. load_events-Loaded own' rest l1 m1 safe1 b1)
  load_events-Loaded own (event other rest) l m safe b =
      next_round own other rest l m (λ of. refl) safe b
        (λ own' l1 m1 safe1 b1. load_events-Loaded own' rest l1 m1 safe1 b1)
  load_events-Loaded own (event (scalar val) rest) l m safe b =
      next_round own (scalar val) rest l m (λ of. refl) safe b
        (λ own' l1 m1 safe1 b1. load_events-Loaded own' rest l1 m1 safe1 b1)
