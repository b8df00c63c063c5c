-- ===== src/Storage/Loader/Rounds.antt =====
-- What an event makes `yaml_load_policy` of plugin/src/yaml_loader.c allocate and free.
use strongswan_plugin_vpn_cu.Base.{
  ℕ, ◌+◌, ◌≤◌, ◌≡◌, refl, ap, Option, none, some, [], arith, Name, ok, ◌>>=◌, Returns,
}
use strongswan_plugin_vpn_cu.Env.{Ptr}
use strongswan_plugin_vpn_cu.Host.{HostLib}
use strongswan_plugin_vpn_cu.Storage.{Storage, malloc, free}
use strongswan_plugin_vpn_cu.Storage.Balance.{
  one, maybe_one, Balanced, Balanced-eq, malloc-Balanced, free-Balanced,
}
use strongswan_plugin_vpn_cu.Storage.Fixed.{KeyTable}
use strongswan_plugin_vpn_cu.Storage.Loader.{Loader, pending_block, enter, leave, read_scalar, step}
use strongswan_plugin_vpn_cu.Storage.Fixed.Blocks.{has}
use strongswan_plugin_vpn_cu.Storage.Loader.Given.{
  Cursor, Gain, moved, enter_gain, leave_gain, scalar_gain, gain,
}
use strongswan_plugin_vpn_cu.Storage.Loader.Pairs.{filled, held, Safe, pair-Paired}
use strongswan_plugin_vpn_cu.YamlLoader.{
  Event, stream_end, mapping_start, mapping_end, other, scalar, State, top, in_users, in_user,
  in_pool,
}

abbrev text_of : Option (Ptr × Name) → Option Name
text_of none = none
text_of (some (p, key)) = some key

module _ (lib : KeyTable) (hosts : HostLib) where
  abbrev pub owned : Loader lib → Ptr → ℕ
  owned l q = held lib hosts l q + maybe_one (pending_block l.pending) q

  abbrev pub cursor : Loader lib → Cursor
  cursor l = record { st = l.st; key = text_of l.pending; user = l.cur_user }

  -- An event with the gain `g`: `lost` is what is still allocated and no longer pointed to. It is
  -- nothing, if no end point was there that the event gives.
  pub record Kept (own : Ptr → ℕ) (g : Gain) (l : Loader lib) (r : Loader lib × Storage)
      : Type 0 where
    pub lost : Ptr → ℕ
    pub balanced : Balanced (λ q. own q + owned r.0 q + lost q) r.1
    pub none_lost :
        g.start + filled l.pool_start ≤ 1 → g.end + filled l.pool_end ≤ 1 → (q : Ptr) → lost q ≡ 0
    pub start : filled r.0.pool_start ≤ g.start + filled l.pool_start
    pub end : filled r.0.pool_end ≤ g.end + filled l.pool_end
    pub users : (n : Name) → has lib r.0.fixed n ≤ g.users n + has lib l.fixed n
    pub cursor_lem : cursor r.0 ≡ g.next

  -- No block was lost, and the table and the end points are as they were.
  lossless :
      (own : Ptr → ℕ) (c : Cursor) (l : Loader lib) (st : State) (pending : Option (Ptr × Name))
      (user : Name) (m : Storage)
      → Balanced (λ q. own q + owned (record l { st = st; pending = pending; cur_user = user }) q) m
      → cursor (record l { st = st; pending = pending; cur_user = user }) ≡ c
      → Kept own (moved c) l (record l { st = st; pending = pending; cur_user = user }, m)
  lossless own c l st pending user m b at = record {
    lost = λ q. 0;
    balanced = Balanced-eq _ _ m b (λ q. omega arith);
    none_lost = λ _ _ q. refl;
    start = omega arith;
    end = omega arith;
    users = λ n. omega arith;
    cursor_lem = at;
  }

  module _ (own : Ptr → ℕ) (l : Loader lib) (m : Storage)
      (b : Balanced (λ q. own q + owned l q) m) where
    nothing_done : Returns (ok (l, m)) (Kept own (moved (cursor l)) l)
    nothing_done = ((l, m), refl, lossless own (cursor l) l l.st l.pending l.cur_user m b refl)

    taken_key :
        (p : Ptr) (key : Name)
        → l.pending ≡ some (p, key)
        → Balanced (λ q. (own q + held lib hosts l q) + one p q) m
    unfolding pending_block
    taken_key p key e =
        Balanced-eq _ _ m b (λ q. omega (arith, ap (λ o. maybe_one (pending_block o) q) e))

    -- The pending key is freed, and only the state and the user's name change.
    key_freed :
        (p : Ptr) (key : Name) (st : State) (user : Name)
        → l.pending ≡ some (p, key)
        → Returns
            (free p m >>= λ m'. ok (record l { st = st; cur_user = user; pending = none }, m'))
            (Kept own (moved (record { st = st; key = none; user = user })) l)
    unfolding pending_block
    key_freed p key st user e =
        let (m', ran, b') = free-Balanced _ p m (taken_key p key e) in
        let l' : Loader lib = record l { st = st; cur_user = user; pending = none } in
        (
          (l', m'),
          rw ran,
          lossless own _ l st none user m' (Balanced-eq _ _ m' b' (λ q. omega arith)) refl,
        )

    enter-Kept :
        (st : State) (o : Option (Ptr × Name))
        → l.pending ≡ o
        → Returns (enter lib hosts st o l m) (Kept own (enter_gain st (text_of o) (cursor l)) l)
    unfolding enter
    enter-Kept top none e = nothing_done
    enter-Kept top (some (p, key)) e = key_freed p key _ l.cur_user e
    enter-Kept in_users none e = nothing_done
    enter-Kept in_users (some (p, key)) e = key_freed p key in_user _ e
    enter-Kept in_user o e = nothing_done
    enter-Kept in_pool o e = nothing_done

    leave-Kept : (st : State) → Kept own (leave_gain st (cursor l)) l (leave lib hosts st l, m)
    unfolding leave
    leave-Kept in_user = lossless own _ l in_users l.pending [] m b refl
    leave-Kept in_users = lossless own _ l top l.pending l.cur_user m b refl
    leave-Kept in_pool = lossless own _ l top l.pending l.cur_user m b refl
    leave-Kept top = lossless own _ l l.st l.pending l.cur_user m b refl

    read_scalar-Kept :
        (o : Option (Ptr × Name)) (val : Name)
        → l.pending ≡ o
        → Safe lib hosts (scalar_gain (text_of o) val (cursor l)).users l
        → Returns
            (read_scalar lib hosts o val l m)
            (Kept own (scalar_gain (text_of o) val (cursor l)) l)
    unfolding read_scalar pending_block
    read_scalar-Kept none val e safe =
        let b' = malloc-Balanced _ m b in
        let l' : Loader lib = record l { pending = some ((malloc m).0, val) } in
        (
          (l', (malloc m).1),
          refl,
          lossless own _ l l.st (some ((malloc m).0, val)) l.cur_user _
              (Balanced-eq _ _ _ b' (λ q. omega (arith, ap (λ o. maybe_one (pending_block o) q) e)))
              refl,
        )
    read_scalar-Kept (some (p, key)) val e safe =
        let ((l1, m1), ran1, w) =
          pair-Paired lib hosts (λ q. own q + one p q) l.st key val l m safe
            (Balanced-eq _ _ m (taken_key p key e) (λ q. omega arith)) in
        let (m2, ran2, b2) =
          free-Balanced (λ q. own q + held lib hosts l1 q + w.lost q) p m1
            (Balanced-eq _ _ m1 w.balanced (λ q. omega arith)) in
        let l2 : Loader lib = record l1 { pending = none } in
        (
          (l2, m2),
          rw (ran1, ran2),
          record {
            lost = w.lost;
            balanced = Balanced-eq _ _ m2 b2 (λ q. omega arith);
            none_lost = w.none_lost;
            start = w.start;
            end = w.end;
            users = w.users;
            cursor_lem = λ i. record { st = w.same_state i; key = none; user = w.user i };
          },
        )

    pub step-Kept :
        (ev : Event)
        → Safe lib hosts (gain ev (cursor l)).users l
        → Returns (step lib hosts ev l m) (Kept own (gain ev (cursor l)) l)
    unfolding step
    step-Kept mapping_start safe = enter-Kept l.st l.pending refl
    step-Kept mapping_end safe = (_, refl, leave-Kept l.st)
    step-Kept (scalar val) safe = read_scalar-Kept l.pending val refl safe
    step-Kept other safe = nothing_done
    step-Kept stream_end safe = nothing_done
