-- ===== src/Host.antt =====
-- strongSwan's `host_t`, which the plugin only calls, and the conversions of
-- plugin/src/dynamic_pool.c between an IPv4 host and a number in host byte order.
pub mod Words
use strongswan_plugin_vpn_cu.Base.{
  ℕ, ◌+◌, ◌*◌, ◌/◌, ◌%◌, ◌^◌, ◌<◌, ◌≡◌, Option, some, List, [], ◌∷◌, Name, length, All,
}

abbrev pub af_inet : ℕ
af_inet = 2

-- The library's hosts. An address is the chunk of its bytes; a clone is a copy of the host, and a
-- chunk of four bytes is the address of an IPv4 host.
pub record HostLib : Type 1 where
  pub Host : Type 0
  pub get_family : Host → ℕ
  pub get_address : Host → List ℕ
  pub clone : Host → Host
  pub host_create_from_chunk : ℕ → List ℕ → ℕ → Option Host
  pub host_create_from_string : Name → ℕ → Option Host
  pub get_address-bytes : (h : Host) → All (λ b. b < 256) (get_address h)
  pub get_family-clone : (h : Host) → get_family (clone h) ≡ get_family h
  pub get_address-clone : (h : Host) → get_address (clone h) ≡ get_address h
  pub create_ipv4 :
      (bytes : List ℕ)
      → length bytes ≡ 4
      → All (λ b. b < 256) bytes
      → (h : Host) × (host_create_from_chunk af_inet bytes 0 ≡ some h)
        × (get_family h ≡ af_inet)
        × (get_address h ≡ bytes)

-- `memcpy` of four bytes and `ntohl`: the bytes in network order, as a number. A shorter chunk is
-- not copied.
unfoldable pub ntohl : List ℕ → ℕ
ntohl (a ∷ b ∷ c ∷ d ∷ rest) = a * 2 ^ 24 + b * 2 ^ 16 + c * 2 ^ 8 + d
ntohl _ = 0

-- `htonl`, as the four bytes in memory.
unfoldable pub htonl : ℕ → List ℕ
htonl v = (v / 2 ^ 24 % 256) ∷ (v / 2 ^ 16 % 256) ∷ (v / 2 ^ 8 % 256) ∷ (v % 256) ∷ []

module _ (lib : HostLib) where
  open lib use {Host, get_address, host_create_from_chunk}

  unfoldable pub host_to_u32 : Host → ℕ
  host_to_u32 h = ntohl (get_address h)

  unfoldable pub u32_to_host : ℕ → Option Host
  u32_to_host v = host_create_from_chunk af_inet (htonl v) 0
