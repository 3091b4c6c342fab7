-- ===== src/Auth/ClientIp.antt =====
-- The client's address of internal/auth/clientip.go: ClientIP, parseForwardedEntry, peerIP,
-- isTrusted and RateLimitKey.
pub mod Chain
use Prim.Native.String.{◌++◌ as ◌^^◌}
use mathlib.Core.List.{reverse}
use ky_server_base.Config.Texts.{split_commas}
use ky_server_base.Prelude.{String, Bool, Option, none, some, List, [], ◌∷◌, if◌then◌else◌}
use ky_server_base.Sql.{any}

-- What the walk takes from the standard library, on addresses `A`: netip.ParseAddr, Addr.Unmap,
-- Addr.String and net.SplitHostPort (the host); strings.Trim of "[]"; strings.TrimSpace; whether
-- an address is IPv6 and not an IPv4-mapped one; and the printed /64 prefix of an address.
pub record Net {ℓ} (A : Type ℓ) : Type ℓ where
  pub parse_addr : String → Option A
  pub unmap : A → A
  pub print : A → String
  pub split_host : String → Option String
  pub trim_brackets : String → String
  pub trim_space : String → String
  pub is_plain_v6 : A → Bool
  pub block : A → String

-- strings.Join(lines, ",")
unfoldable pub join_commas : List String → String
join_commas [] = ""
join_commas (line ∷ []) = line
join_commas (line ∷ lines) = line ^^ ("," ^^ join_commas lines)

-- The parts of all lines.
unfoldable pub forwarded_parts : List String → List String
unfolding join_commas split_commas
forwarded_parts lines = split_commas (join_commas lines)

module _ {ℓ} {A : Type ℓ} (net : Net A) where
  abbrev unmapped : Option A → Option A
  unmapped none = none
  unmapped (some a) = some (net.unmap a)

  abbrev parse_host : Option String → Option A
  parse_host none = none
  parse_host (some host) = unmapped (net.parse_addr host)

  abbrev or_host_of : String → Option A → Option A
  or_host_of entry (some a) = some (net.unmap a)
  or_host_of entry none = parse_host (net.split_host entry)

  unfoldable pub parse_forwarded_entry : String → Option A
  parse_forwarded_entry entry = or_host_of entry (net.parse_addr entry)

  abbrev host_or : String → Option String → String
  host_or remote none = net.trim_brackets remote
  host_or remote (some host) = host

  abbrev printed : String → Option A → String
  printed host none = host
  printed host (some a) = net.print (net.unmap a)

  unfoldable pub peer_ip : String → String
  peer_ip remote =
      let host = host_or remote (net.split_host remote) in printed host (net.parse_addr host)

  -- The configured prefixes, each as what it contains.
  unfoldable pub is_trusted : A → List (A → Bool) → Bool
  unfolding any
  is_trusted a trusted = any (λ p. p a) trusted

  abbrev step : String → List (A → Bool) → Option A → String → String
  step peer trusted none further = peer
  step peer trusted (some a) further = if is_trusted a trusted then further else net.print a

  -- The loop over the parts, from the last on.
  unfoldable pub walk : String → List (A → Bool) → List String → String
  unfolding parse_forwarded_entry is_trusted
  walk peer trusted [] = peer
  walk peer trusted (part ∷ left) =
      step peer trusted (parse_forwarded_entry (net.trim_space part)) (walk peer trusted left)

  abbrev from_peer : String → List (A → Bool) → Option A → String → String
  from_peer peer trusted none walked = peer
  from_peer peer trusted (some a) walked = if is_trusted a trusted then walked else peer

  -- `lines` are the values of all X-Forwarded-For headers, in their order.
  unfoldable pub client_ip : String → List (A → Bool) → List String → String
  unfolding peer_ip walk is_trusted forwarded_parts
  client_ip remote trusted lines =
      let peer = peer_ip remote in
      from_peer peer trusted (net.parse_addr peer)
        (walk peer trusted (reverse (forwarded_parts lines)))

  abbrev key_of : String → Option A → String
  key_of ip none = ip
  key_of ip (some a) = if net.is_plain_v6 a then net.block a else ip

  unfoldable pub rate_limit_key : String → String
  rate_limit_key ip = key_of ip (net.parse_addr ip)
