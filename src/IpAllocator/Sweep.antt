-- ===== src/IpAllocator/Sweep.antt =====
-- `sweep` of plugin/src/ip_allocator.c.
use strongswan_plugin_vpn_cu.Base.{
  ℕ, ◌≡◌, ◌∙◌, inl, inr, Bool, some, List, [], ◌∷◌, Option-cases, All, Returns,
}
use strongswan_plugin_vpn_cu.Env.{Env, Ptr}
use strongswan_plugin_vpn_cu.Hashtable.{u32_key-IsLawful}
use strongswan_plugin_vpn_cu.IpAllocator.{IpAllocator, sweep}
use strongswan_plugin_vpn_cu.IpAllocator.Invariant.{IsConsistent}
use strongswan_plugin_vpn_cu.IpAllocator.Rounds.{kept, Swept, Ready, expired-olds, call_all-Swept}
use strongswan_plugin_vpn_cu.SessionManager.{foreach_expiring}
use strongswan_plugin_vpn_cu.SessionManager.Expire.{entries-Listed}
use strongswan_plugin_vpn_cu.SessionManager.Tables.{leases, uid_of}

module _ (env : Env) where
  open env use {Host as H, uids}

  entries-Ready :
      (now timeout : ℕ) (alive : ℕ → Bool) (a : IpAllocator env)
      → IsConsistent env a
      → (es : List (ℕ × Ptr)) → All (λ e. uid_of env a.sessions e.0 ≡ some e.1) es
      → Ready env now timeout alive a.sessions a es
  entries-Ready now timeout alive a c [] all = tt
  entries-Ready now timeout alive a c ((k, p) ∷ es) (entry, all) =
      let (l, at, number, _) = c.index.numbered k p entry in
      ((l, entry, at, at, number), entries-Ready now timeout alive a c es all)

  -- On a consistent allocator a `sweep` that no other thread interrupts commits no fault and
  -- leaves a consistent allocator with the same policy, pool name and timeout. It takes away
  -- exactly the leases that were acquired longer ago than the timeout and whose IKE_SA is gone;
  -- all others are as they were.
  pub sweep-Swept :
      (now : ℕ) (alive : ℕ → Bool) (a : IpAllocator env)
      → IsConsistent env a
      → Returns
          (sweep env now alive a)
          (Swept env a (λ v. kept now a.lease_timeout alive (leases env a.sessions v)))
  unfolding sweep foreach_expiring
  sweep-Swept now alive a c =
      let es = uids.entries a.sessions.by_uid in
      let (all, distinct) = entries-Listed env a.sessions in
      let ready = entries-Ready now a.lease_timeout alive a c es all in
      let (r, ran, w) =
        call_all-Swept env now a.lease_timeout alive a.sessions es a c ready distinct in
      (
        r,
        rw (expired-olds env now a.lease_timeout alive a.sessions a es ready) ran,
        record {
          consistent = w.consistent;
          same = w.same;
          view = λ v. w.view v ∙ elim (Option-cases (uid_of env a.sessions v)) [
            | inl e ↦ rw (← uids.get-entries u32_key-IsLawful a.sessions.by_uid v, e)
            | inr (p, e) ↦ rw (← uids.get-entries u32_key-IsLawful a.sessions.by_uid v, e)
          ];
        },
      )
