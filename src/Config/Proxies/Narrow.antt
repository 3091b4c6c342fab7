-- ===== src/Config/Proxies/Narrow.antt =====
-- What a parsed allowlist of trusted proxies holds (internal/config/config.go).
use ky_server_base.Prelude.{
  ◌≤◌, All, ℕ, suc, ◌<◌, String, ◌≡◌, refl, ap, subst, inl, inr, true, false, Option, none, some,
  List, [], ◌∷◌, arith, ◌==◌, if◌then◌else◌, Bool-cases, length,
}
use ky_server_base.Config.Texts.{split_commas, has_slash}
use ky_server_base.Config.Proxies.{
  Prefix, Netip, Parsed, parsed, rejected, unmap_prefix, parse_entry, parse_fields,
  parse_trusted_proxies, append_entry, checked_prefix, checked_addr,
}

-- Some bits of the address count, and it is not an IPv4 address in the mapped form of IPv6.
abbrev pub IsNarrow {ℓ} : {A : Type ℓ} → Netip A → Prefix A → Type 0
IsNarrow net p = (0 < p.bits) × (net.is_4in6 p.addr ≡ false)

-- The fields of the list that are not blank.
unfoldable pub count_fields {ℓ} : {A : Type ℓ} → Netip A → List String → ℕ
count_fields net [] = 0
count_fields net (raw ∷ fields) =
    if net.trim_space raw == "" then count_fields net fields else suc (count_fields net fields)

append_entry-parsed {ℓ} :
    {A : Type ℓ} (x : Parsed (Prefix A)) (rest : Parsed (List (Prefix A))) {ps : List (Prefix A)}
    → append_entry x rest ≡ parsed ps
    → (p : Prefix A) × (qs : List (Prefix A)) × (x ≡ parsed p) × (rest ≡ parsed qs) × (p ∷ qs ≡ ps)
append_entry-parsed (rejected r) rest e = absurd (cc e)
append_entry-parsed (parsed p) (rejected r) e = absurd (cc e)
append_entry-parsed (parsed p) (parsed qs) e = (p, qs, refl, refl, cc e)

-- The laws of net/netip: an address that ParseAddr gives has bits; Unmap leaves no mapped address;
-- and Masked gives one only for a mapped address of which the 96 leading bits count.
abbrev pub HasBits {ℓ} : {A : Type ℓ} → Netip A → Type ℓ
HasBits {A = A} net =
    (s : String) (a : A) → net.parse_addr s ≡ some a → 0 < net.bit_len (net.unmap a)

abbrev pub MasksPlain {ℓ} : {A : Type ℓ} → Netip A → Type ℓ
MasksPlain {A = A} net =
    (p : Prefix A) → net.is_4in6 (net.masked p) ≡ true → (net.is_4in6 p.addr ≡ true) × (96 ≤ p.bits)

module _ {ℓ} {A : Type ℓ} (net : Netip A) (has_bits : HasBits net)
    (unmap-plain : (a : A) → net.is_4in6 (net.unmap a) ≡ false) (masks_plain : MasksPlain net) where
  unmap_prefix-plain : (q : Prefix A) → net.is_4in6 (net.masked (unmap_prefix net q)) ≡ false
  unfolding unmap_prefix
  unmap_prefix-plain q = elim (Bool-cases (net.is_4in6 (net.masked (unmap_prefix net q)))) [
    | inr plain ↦ plain
    | inl mapped ↦
        absurd (ground (arith, masks_plain (unmap_prefix net q) mapped, unmap-plain q.addr))
  ]

  checked_prefix-IsNarrow :
      (field : String) (o : Option (Prefix A)) (p : Prefix A)
      → checked_prefix net field o ≡ parsed p
      → IsNarrow net p
  checked_prefix-IsNarrow field none p e = absurd (cc e)
  checked_prefix-IsNarrow field (some q) p e = (ground arith, ground (arith, unmap_prefix-plain q))

  checked_addr-IsNarrow :
      (field : String) (o : Option A) (p : Prefix A)
      → net.parse_addr field ≡ o
      → checked_addr net field o ≡ parsed p
      → IsNarrow net p
  checked_addr-IsNarrow field none p read e = absurd (cc e)
  checked_addr-IsNarrow field (some a) p read e =
      (ground (arith, has_bits field a read), ground (arith, unmap-plain a))

  parse_entry-IsNarrow :
      (field : String) (p : Prefix A) → parse_entry net field ≡ parsed p → IsNarrow net p
  unfolding parse_entry
  parse_entry-IsNarrow field p e = elim (Bool-cases (has_slash field)) [
    | inl block ↦ checked_prefix-IsNarrow field (net.parse_prefix field) p (rw block at e)
    | inr single ↦ checked_addr-IsNarrow field (net.parse_addr field) p refl (rw single at e)
  ]

  parse_fields-IsNarrow :
      (fields : List String) (ps : List (Prefix A))
      → parse_fields net fields ≡ parsed ps
      → (length ps ≡ count_fields net fields) × All (IsNarrow net) ps
  unfolding parse_fields count_fields
  parse_fields-IsNarrow [] ps e =
      let none_left : [] ≡ ps = cc e in
      subst (λ (l : List (Prefix A)). (length l ≡ 0) × All (IsNarrow net) l) none_left (refl, tt)
  parse_fields-IsNarrow (raw ∷ fields) ps e =
      let later = parse_fields-IsNarrow fields in
      elim (Bool-cases (net.trim_space raw == "")) [
        | inl blank ↦ rw blank (later ps (rw blank at e))
        | inr named ↦
            let (p, qs, here, rest, whole) =
              append_entry-parsed (parse_entry net (net.trim_space raw)) (parse_fields net fields)
                (rw named at e) in
            let (counted, narrow) = later qs rest in
            rw named (
              subst
                (λ (l : List (Prefix A)).
                  (length l ≡ suc (count_fields net fields)) × All (IsNarrow net) l)
                whole (ap suc counted, (parse_entry-IsNarrow (net.trim_space raw) p here, narrow)))
      ]

  -- An allowlist that is accepted has one prefix for each field that is not blank, each with bits
  -- that count, so that none covers every address, and none is in the IPv4-mapped form, which would
  -- match no peer; of net/netip it takes that a parsed address has bits, that Unmap leaves no mapped
  -- address, and that Masked gives one only for a mapped address of which 96 bits count.
  pub parse_trusted_proxies-IsNarrow :
      (raw : String) (ps : List (Prefix A))
      → parse_trusted_proxies net raw ≡ parsed ps
      → (length ps ≡ count_fields net (split_commas raw)) × All (IsNarrow net) ps
  unfolding parse_trusted_proxies
  parse_trusted_proxies-IsNarrow raw ps e = parse_fields-IsNarrow (split_commas raw) ps e
