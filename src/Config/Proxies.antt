-- ===== src/Config/Proxies.antt =====
-- The allowlist of trusted proxies: ParseTrustedProxies and unmapPrefix of
-- internal/config/config.go, over an abstract type of addresses.
pub mod Narrow
use ky_server_base.Prelude.{
  ℕ, ◌-◌, String, Bool, not, ◌||◌, Option, none, some, List, [], ◌∷◌, ◌==◌, ltb, leb, if◌then◌else◌,
}
use ky_server_base.Config.Texts.{split_commas, has_slash}

-- A prefix of net/netip: an address and the number of its leading bits that count.
pub record Prefix {ℓ} (A : Type ℓ) : Type ℓ where
  pub addr : A
  pub bits : ℕ

-- What the code calls of net/netip, and strings.TrimSpace. `masked` clears an address's other bits.
pub record Netip {ℓ} (A : Type ℓ) : Type ℓ where
  pub parse_addr : String → Option A
  pub parse_prefix : String → Option (Prefix A)
  pub is_4in6 : A → Bool
  pub unmap : A → A
  pub bit_len : A → ℕ
  pub masked : Prefix A → A
  pub trim_space : String → String

-- An entry that is refused, with the reason.
pub data Refusal : Type 0 where
  invalid_cidr trusts_every_address invalid_ip : String → Refusal

pub data Parsed {ℓ} (A : Type ℓ) : Type ℓ where
  parsed : A → Parsed A
  rejected : Refusal → Parsed A

-- The first refused entry decides.
abbrev pub append_entry {ℓ} :
    {A : Type ℓ} → Parsed (Prefix A) → Parsed (List (Prefix A)) → Parsed (List (Prefix A))
append_entry (rejected e) rest = rejected e
append_entry (parsed p) (rejected e) = rejected e
append_entry (parsed p) (parsed ps) = parsed (p ∷ ps)

module _ {ℓ} {A : Type ℓ} (net : Netip A) where
  unfoldable pub unmap_prefix : Prefix A → Prefix A
  unmap_prefix p =
      if not (net.is_4in6 p.addr) || ltb p.bits 96
      then p
      else record { addr = net.unmap p.addr; bits = p.bits - 96 }

  abbrev pub masked_prefix : Prefix A → Prefix A
  masked_prefix p = record { addr = net.masked p; bits = p.bits }

  abbrev pub whole_address : A → Prefix A
  whole_address a = record { addr = net.unmap a; bits = net.bit_len (net.unmap a) }

  abbrev pub checked_prefix : String → Option (Prefix A) → Parsed (Prefix A)
  checked_prefix field none = rejected (invalid_cidr field)
  checked_prefix field (some p) =
      let rewritten = masked_prefix (unmap_prefix p) in
      if leb rewritten.bits 0 then rejected (trusts_every_address field) else parsed rewritten

  abbrev pub checked_addr : String → Option A → Parsed (Prefix A)
  checked_addr field none = rejected (invalid_ip field)
  checked_addr field (some a) = parsed (whole_address a)

  -- One field of the list that is not blank.
  unfoldable pub parse_entry : String → Parsed (Prefix A)
  unfolding unmap_prefix has_slash
  parse_entry field =
      if has_slash field
      then checked_prefix field (net.parse_prefix field)
      else checked_addr field (net.parse_addr field)

  -- The loop over the fields.
  unfoldable pub parse_fields : List String → Parsed (List (Prefix A))
  unfolding parse_entry
  parse_fields [] = parsed []
  parse_fields (raw ∷ fields) =
      let rest = parse_fields fields in
      let field = net.trim_space raw in
      if field == "" then rest else append_entry (parse_entry field) rest

  unfoldable pub parse_trusted_proxies : String → Parsed (List (Prefix A))
  unfolding parse_fields split_commas
  parse_trusted_proxies raw = parse_fields (split_commas raw)
