-- ===== src/Host/Words.antt =====
-- The two conversions of plugin/src/dynamic_pool.c are inverse to one another on 32-bit words.
use strongswan_plugin_vpn_cu.Base.{
  ℕ, ◌^◌, ◌<◌, ◌≡◌, refl, List, [], ◌∷◌, some, arith, length, All, ◌∙◌, ap,
}
use strongswan_plugin_vpn_cu.Host.{HostLib, af_inet, ntohl, htonl, host_to_u32, u32_to_host}

ntohl-lt : (bytes : List ℕ) → All (λ b. b < 256) bytes → ntohl bytes < 2 ^ 32
unfolding ntohl
ntohl-lt (a ∷ b ∷ c ∷ d ∷ rest) h = omega arith
ntohl-lt [] h = omega arith
ntohl-lt (a ∷ []) h = omega arith
ntohl-lt (a ∷ b ∷ []) h = omega arith
ntohl-lt (a ∷ b ∷ c ∷ []) h = omega arith

ntohl-htonl : (v : ℕ) → v < 2 ^ 32 → ntohl (htonl v) ≡ v
unfolding ntohl htonl
ntohl-htonl v h = omega arith

length-htonl : (v : ℕ) → length (htonl v) ≡ 4
unfolding htonl
length-htonl v = refl

htonl-bytes : (v : ℕ) → All (λ b. b < 256) (htonl v)
unfolding htonl
htonl-bytes v = (omega arith, (omega arith, (omega arith, (omega arith, tt))))

module _ (lib : HostLib) where
  open lib use {Host, get_family, get_address, clone, get_address-bytes, get_address-clone}

  pub host_to_u32-lt : (h : Host) → host_to_u32 lib h < 2 ^ 32
  unfolding host_to_u32
  host_to_u32-lt h = ntohl-lt (get_address h) (get_address-bytes h)

  pub host_to_u32-clone : (h : Host) → host_to_u32 lib (clone h) ≡ host_to_u32 lib h
  unfolding host_to_u32
  host_to_u32-clone h = ap ntohl (get_address-clone h)

  -- A 32-bit number becomes an IPv4 host whose address reads back as that number.
  pub host_to_u32-u32_to_host :
      (v : ℕ)
      → v < 2 ^ 32
      → (h : Host) × (u32_to_host lib v ≡ some h)
        × (get_family h ≡ af_inet)
        × (host_to_u32 lib h ≡ v)
  unfolding u32_to_host host_to_u32
  host_to_u32-u32_to_host v small =
      let (h, made, family, address) = lib.create_ipv4 (htonl v) (length-htonl v) (htonl-bytes v) in
      (h, made, family, ap ntohl address ∙ ntohl-htonl v small)
