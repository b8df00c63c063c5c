-- ===== src/Examples/World.antt =====
-- A concrete world: hosts that are a family and some bytes, tables that are lists of pairs, and a
-- pool of three addresses from 10.0.0.1 to 10.0.0.3.
use strongswan_plugin_vpn_cu.Base.{
  ℕ, ◌%◌, ◌<◌, ◌≡◌, refl, true, false, Option, none, some, List, [], ◌∷◌, arith, All, take, Name,
  streq, starts_with, strndup, ◌+◌, ◌-◌, ◌^◌, sym, ◌∙◌, Run, ok, fault,
}
use strongswan_plugin_vpn_cu.DynamicPool
use strongswan_plugin_vpn_cu.DynamicPool.{dynamic_pool_create, scan, test_bit, set_bit, at}
use strongswan_plugin_vpn_cu.FixedPool
use strongswan_plugin_vpn_cu.FixedPool.{FixedPool}
use strongswan_plugin_vpn_cu.Host.{HostLib, af_inet, host_to_u32, u32_to_host, ntohl, htonl}
use strongswan_plugin_vpn_cu.IdentityManager.{IkeSa, fqdn, identity_get_username}
use strongswan_plugin_vpn_cu.IpAllocator.{
  IpAllocator, Memory, acquire_address, pools_include, lease_name,
}
use strongswan_plugin_vpn_cu.IpAllocator.Served.{IsOwn}
use strongswan_plugin_vpn_cu.IpAllocator.Invariant.{IsConsistent}
use strongswan_plugin_vpn_cu.IpAllocator.Lifecycle.{
  default_name, ip_allocator_create, create-IsConsistent,
}
use strongswan_plugin_vpn_cu.PolicyEngine.{PolicyEngine, get_pool, lookup_fixed}
use strongswan_plugin_vpn_cu.SessionManager.{
  session_manager_create, lookup_by_user, bind_lease, Lease,
}
use strongswan_plugin_vpn_cu.SessionManager.Tables.{user_of, uid_of}
use mathlib.Core.Option.{some-injective}
use mathlib.Core.Path.{subst}
use strongswan_plugin_vpn_cu.Hashtable.{str_key, u32_key, cupp_str_eq, cupp_u32_eq}
use strongswan_plugin_vpn_cu.Hashtable.Assoc.{assoc_table, assoc_remove}
use strongswan_plugin_vpn_cu.Env.{Env, Ptr}

abbrev pub TestHost : Type 0
TestHost = ℕ × List ℕ

abbrev pub clamp : List ℕ → List ℕ
clamp [] = []
clamp (b ∷ bs) = (b % 256) ∷ clamp bs

pub clamp-bytes : (bs : List ℕ) → All (λ b. b < 256) (clamp bs)
clamp-bytes [] = tt
clamp-bytes (b ∷ bs) = (omega arith, clamp-bytes bs)

pub clamp_id : (bs : List ℕ) → All (λ b. b < 256) bs → clamp bs ≡ bs
clamp_id [] all = refl
clamp_id (b ∷ bs) (small, all) = let head : b % 256 ≡ b = omega arith in rw (head, clamp_id bs all)

abbrev pub hosts : HostLib
hosts = record {
  Host = TestHost;
  get_family = λ h. h.0;
  get_address = λ h. clamp h.1;
  clone = λ h. h;
  host_create_from_chunk = λ family bytes port. some (family, bytes);
  host_create_from_string = λ name family. some (af_inet, take 4 name);
  get_address-bytes = λ h. clamp-bytes h.1;
  get_family-clone = λ h. refl;
  get_address-clone = λ h. refl;
  create_ipv4 = λ bytes four small. ((af_inet, bytes), refl, refl, clamp_id bytes small);
}

abbrev pub world : Env
world = record {
  lib = hosts;
  uids = assoc_table Ptr u32_key;
  users = assoc_table Ptr str_key;
  hosts = assoc_table TestHost str_key;
}

abbrev pub ip : ℕ → TestHost
ip n = (af_inet, 10 ∷ 0 ∷ 0 ∷ n ∷ [])

-- The user "ab", who has a fixed address, and the user "cd", who has none.
abbrev pub ab : Name
ab = b'a' ∷ b'b' ∷ []

abbrev pub cd : Name
cd = b'c' ∷ b'd' ∷ []

abbrev pub users : FixedPool world
users = (FixedPool.add world (some ab) (some (ip 9)) (FixedPool.fixed_pool_create world)).1

abbrev pub policy : PolicyEngine world
policy = record {
  active = some (record { fixed = users; pool_start = some (ip 1); pool_end = some (ip 3) });
  path = ab;
}

-- The allocator for that policy.
abbrev pub fresh : IpAllocator world
fresh = record {
  policy = policy;
  dyn = dynamic_pool_create hosts true (some (ip 1)) (some (ip 3));
  sessions = session_manager_create world;
  pool_name = default_name;
  lease_timeout = 3600;
}

pub fresh_created : ip_allocator_create world true true (some policy) none 0 ≡ some fresh
unfolding ip_allocator_create get_pool
fresh_created = refl

pub range_small :
    (start end : TestHost)
    → get_pool world policy ≡ some (start, end)
    → host_to_u32 hosts end < host_to_u32 hosts start + (2 ^ 32 - 8)
unfolding get_pool host_to_u32 ntohl
range_small start end e =
    subst
      (λ (r : TestHost × TestHost). host_to_u32 hosts r.1 < host_to_u32 hosts r.0 + (2 ^ 32 - 8))
      (some-injective (ip 1, ip 3) (start, end) e) (omega arith)

pub fresh-IsConsistent : IsConsistent world fresh
fresh-IsConsistent =
    let (a, made, c, _, _, _) = create-IsConsistent world true policy none 0 range_small in
    subst (IsConsistent world) (some-injective a fresh (sym made ∙ fresh_created)) c

abbrev pub all_memory : Memory
all_memory = record {
  username_ok = true;
  anon_ok = true;
  fixed_ok = true;
  lease_ok = true;
  result_ok = true;
}

-- The IKE_SA of the peer with that name.
abbrev pub peer : Name → ℕ → IkeSa
peer name uid = record {
  unique_id = uid;
  auth_cfg = none;
  other_eap_id = none;
  other_id = some (record { id_type = fqdn; encoding = some name });
}

abbrev pub pools : Option (List (Option Name))
pools = some (none ∷ some default_name ∷ [])

-- The allocator that a run leaves.
abbrev pub left : Run (Option TestHost × IpAllocator world) → IpAllocator world
left (ok (h, a)) = a
left (fault f) = fresh

abbrev pub one_lease : IpAllocator world
one_lease = left (acquire_address world all_memory 100 pools (some (peer cd 7)) none fresh)

pub acquire_cd :
    acquire_address world all_memory 100 pools (some (peer cd 7)) none fresh
    ≡ ok (some (ip 1), one_lease)
unfolding acquire_address assoc_table session_manager_create pools_include streq
    identity_get_username lookup_by_user starts_with strndup lookup_fixed FixedPool.lookup
    FixedPool.add cupp_str_eq assoc_remove FixedPool.fixed_pool_create dynamic_pool_create
    host_to_u32 ntohl DynamicPool.acquire scan test_bit at set_bit u32_to_host bind_lease htonl
acquire_cd = refl

abbrev pub lease : Lease TestHost
lease = record { username = cd; unique_id = 7; ip = some (ip 1); fixed = false; acquired = 100 }

-- The lease that "cd" has then.
pub one_lease_at :
    (user_of world one_lease.sessions cd ≡ some 0)
    × (uid_of world one_lease.sessions 7 ≡ some 0)
    × (one_lease.sessions.heap 0 ≡ some lease)
    × (uid_of world one_lease.sessions 9 ≡ none)
unfolding acquire_address assoc_table session_manager_create pools_include streq
    identity_get_username lookup_by_user starts_with strndup lookup_fixed FixedPool.lookup
    FixedPool.add cupp_str_eq assoc_remove FixedPool.fixed_pool_create dynamic_pool_create
    host_to_u32 ntohl DynamicPool.acquire scan test_bit at set_bit u32_to_host bind_lease htonl
    cupp_u32_eq
one_lease_at = (refl, refl, refl, refl)

-- The user "ab" has no lease then.
pub ab_no_lease : (user_of world one_lease.sessions ab ≡ none) × (one_lease.lease_timeout ≡ 3600)
unfolding acquire_address assoc_table session_manager_create pools_include streq
    identity_get_username lookup_by_user starts_with strndup lookup_fixed FixedPool.lookup
    FixedPool.add cupp_str_eq assoc_remove FixedPool.fixed_pool_create dynamic_pool_create
    host_to_u32 ntohl DynamicPool.acquire scan test_bit at set_bit u32_to_host bind_lease htonl
    cupp_u32_eq
ab_no_lease = (refl, refl)

pub one_lease_pool : one_lease.pool_name ≡ default_name
unfolding acquire_address assoc_table session_manager_create pools_include streq
    identity_get_username lookup_by_user starts_with strndup lookup_fixed FixedPool.lookup
    FixedPool.add cupp_str_eq assoc_remove FixedPool.fixed_pool_create dynamic_pool_create
    host_to_u32 ntohl DynamicPool.acquire scan test_bit at set_bit u32_to_host bind_lease htonl
    cupp_u32_eq
one_lease_pool = refl

pub cd-IsOwn : IsOwn world fresh cd 7
unfolding assoc_table session_manager_create
cd-IsOwn q e = absurd (cc)

pub pools_listed : pools_include default_name pools ≡ true
unfolding pools_include streq
pools_listed = refl

pub cd_called : lease_name world all_memory (peer cd 7) ≡ some cd
unfolding lease_name identity_get_username strndup
cd_called = refl
