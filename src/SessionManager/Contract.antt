-- ===== src/SessionManager/Contract.antt =====
-- The interface of plugin/src/session_manager.h: each user has at most one lease, and the calls change
-- the lease of one user or of one number. plugin/src/session_manager.c implements it.
use strongswan_plugin_vpn_cu.Base.{
  ℕ, ◌≡◌, Bool, true, Option, none, some, List, [], ◌∷◌, if◌then◌else◌, Name, streq, Run, ok, ◌>>=◌,
}
use strongswan_plugin_vpn_cu.Env.{Env}
use strongswan_plugin_vpn_cu.SessionManager
use strongswan_plugin_vpn_cu.SessionManager.{Lease, lease_destroy}
use strongswan_plugin_vpn_cu.SessionManager.ByUser.{without_number}
use strongswan_plugin_vpn_cu.SessionManager.Tables.{S}

-- The calls that change leases. `unbind` gives the lease to the caller, who is to destroy it.
pub data Call (H : Type 0) : Type 0 where
  bind_lease : (now : ℕ) (username : Name) (unique_id : ℕ) (ip : Option H) (fixed : Bool) → Call H
  migrate : (now : ℕ) (username : Name) (new_unique_id : ℕ) → Call H
  unbind : (unique_id : ℕ) → Call H

-- The lease of each user.
abbrev pub Users : Type 0 → Type 0
Users H = Name → Option (Lease H)

module _ {H : Type 0} where
  abbrev pub renumbered : ℕ → ℕ → Option (Lease H) → Option (Lease H)
  renumbered now u none = none
  renumbered now u (some l) = some (record l { unique_id = u; acquired = now })

  -- What a call does to the leases.
  abbrev pub spec : Call H → Users H → Users H
  spec (bind_lease now n u ip fixed) L m =
      if streq n m
      then some (record { username = n; unique_id = u; ip = ip; fixed = fixed; acquired = now })
      else L m
  spec (migrate now n u) L m = if streq n m then renumbered now u (L m) else L m
  spec (unbind u) L m = without_number u (L m)

  abbrev pub specs : List (Call H) → Users H → Users H
  specs [] L = L
  specs (c ∷ cs) L = specs cs (spec c L)

  -- The number is free, or that of the user's own lease.
  abbrev pub Allowed : Call H → Users H → Type 0
  Allowed (bind_lease now n u ip fixed) L =
      (m : Name) (k : Lease H) → L m ≡ some k → k.unique_id ≡ u → m ≡ n
  Allowed (migrate now n u) L = (m : Name) (k : Lease H) → L m ≡ some k → k.unique_id ≡ u → m ≡ n
  Allowed (unbind u) L = Unit {0}

  abbrev pub AllAllowed : List (Call H) → Users H → Type 0
  AllAllowed [] L = Unit {0}
  AllAllowed (c ∷ cs) L = Allowed c L × AllAllowed cs (spec c L)

module _ (env : Env) where
  open env use {Host as H}

  -- A call of the code, with memory for a lease.
  unfoldable pub run : Call H → S env → Run (S env)
  run (bind_lease now n u ip fixed) s = do
    (_, s) ← SessionManager.bind_lease env true now (some n) u ip fixed s
    ok s
  run (migrate now n u) s = do (_, s) ← SessionManager.migrate env now (some n) u s; ok s
  run (unbind u) s = do (l, s) ← SessionManager.unbind env u s; lease_destroy env l s

  unfoldable pub runs : List (Call H) → S env → Run (S env)
  runs [] s = ok s
  runs (c ∷ cs) s = run c s >>= runs cs
