-- ===== src/Auth/ClientIp/Chain.antt =====
-- What a forwarded chain can and cannot make of the client's address.
use mathlib.Core.List.{reverse, reverse-cons, reverse-append, append_assoc, append-nil}
use text.Mathlib.TextLemmas.{nil-append, cons-append}
use ky_server_base.Config.Texts.{split_commas, push_char}
use Prim.Native.Char.{Char}
use Prim.Native.String.{◌++◌ as ◌^^◌}
use ky_server_base.Prelude.{
  All-reverse, All, is_char, String, ◌≡◌, refl, sym, ap, ◌∙◌, inl, inr, Bool, true, false, Option,
  none, some, List, [], ◌∷◌, ◌++◌, Bool-cases,
}
use ky_server_base.Auth.ClientIp.{
  forwarded_parts, join_commas, Net, parse_forwarded_entry, peer_ip, is_trusted, walk, client_ip,
}

-- The parts of the lines, each split at its own commas, in the order of the lines.
abbrev pub parts_of : List String → List String
parts_of [] = []
parts_of (line ∷ lines) = split_commas line ++ parts_of lines

split_commas-cons : (s : String) → (x : String) × (xs : List String) × (split_commas s ≡ x ∷ xs)
unfolding split_commas
split_commas-cons String.[] = (_, _, refl)
split_commas-cons (String.◌∷◌ c s) =
    let (x, xs, e) = split_commas-cons s in
    elim (Bool-cases (is_char b',' c)) [
      | inl comma ↦ ("", split_commas s, rw comma refl)
      | inr other ↦ (String.◌∷◌ c x, xs, rw (other, e) refl)
    ]

push_char-append :
    (c : Char) (s : String) (ys : List String)
    → push_char c (split_commas s ++ ys) ≡ push_char c (split_commas s) ++ ys
push_char-append c s ys = let (x, xs, e) = split_commas-cons s in rw e refl

-- A text with a comma in it is split there.
split_commas-join :
    (s t : String) → split_commas (s ^^ ("," ^^ t)) ≡ split_commas s ++ split_commas t
unfolding split_commas
split_commas-join String.[] t = rw (nil-append, cons-append, nil-append) refl
split_commas-join (String.◌∷◌ c s) t =
    rw (cons-append, split_commas-join s t)
      (elim (Bool-cases (is_char b',' c)) [
        | inl comma ↦ rw comma refl
        | inr other ↦ rw other (push_char-append c s (split_commas t))
      ])

-- Joining the lines and splitting the whole gives the parts of the lines.
forwarded_parts_lem :
    (line : String) (lines : List String) → forwarded_parts (line ∷ lines) ≡ parts_of (line ∷ lines)
unfolding forwarded_parts join_commas
forwarded_parts_lem line [] = sym (append-nil (split_commas line))
forwarded_parts_lem line (next ∷ lines) =
    split_commas-join line (join_commas (next ∷ lines))
    ∙ ap (λ (xs : List String). split_commas line ++ xs) (forwarded_parts_lem next lines)

module _ {ℓ} {A : Type ℓ} (net : Net A) (trusted : List (A → Bool)) where
  -- The part is the address of a trusted hop, with spaces around it perhaps.
  abbrev pub IsHop : String → Type ℓ
  IsHop part =
      (a : A) × (parse_forwarded_entry net (net.trim_space part) ≡ some a)
      × (is_trusted net a trusted ≡ true)

  walk-hops :
      (peer : String) (hops left : List String)
      → All IsHop hops
      → walk net peer trusted (hops ++ left) ≡ walk net peer trusted left
  unfolding walk
  walk-hops peer [] left h = refl
  walk-hops peer (e ∷ es) left ((a, read, known), h) = rw (read, known) (walk-hops peer es left h)

  walk-first :
      (peer part : String) (left : List String) (a : A)
      → parse_forwarded_entry net (net.trim_space part) ≡ some a
      → is_trusted net a trusted ≡ false
      → walk net peer trusted (part ∷ left) ≡ net.print a
  unfolding walk
  walk-first peer part left a read unknown = rw (read, unknown) refl

  walk-rightmost :
      (peer part : String) (left hops : List String) (a : A)
      → All IsHop hops
      → parse_forwarded_entry net (net.trim_space part) ≡ some a
      → is_trusted net a trusted ≡ false
      → walk net peer trusted (reverse (left ++ part ∷ hops)) ≡ net.print a
  walk-rightmost peer part left hops a h read unknown =
      ap (walk net peer trusted) (
        reverse-append left (part ∷ hops)
        ∙ ap (λ (xs : List String). xs ++ reverse left) (reverse-cons part hops)
        ∙ append_assoc (reverse hops) (part ∷ []) (reverse left))
      ∙ walk-hops peer (reverse hops) (part ∷ reverse left) (All-reverse IsHop hops h)
      ∙ walk-first peer part (reverse left) a read unknown

  -- Behind trusted hops alone the client is the rightmost address that is no trusted hop: of the
  -- parts of all header lines in their order, the last that is not a trusted hop's, whatever a
  -- caller puts to its left and in whichever line.
  pub client_ip-rightmost :
      (remote part : String) (lines left hops : List String) (p a : A)
      → net.parse_addr (peer_ip net remote) ≡ some p
      → is_trusted net p trusted ≡ true
      → parts_of lines ≡ left ++ part ∷ hops
      → All IsHop hops
      → parse_forwarded_entry net (net.trim_space part) ≡ some a
      → is_trusted net a trusted ≡ false
      → client_ip net remote trusted lines ≡ net.print a
  unfolding client_ip peer_ip
  client_ip-rightmost remote part [] [] hops p a read known parts h e unknown = absurd (cc parts)
  client_ip-rightmost remote part [] (x ∷ left) hops p a read known parts h e unknown =
      absurd (cc parts)
  client_ip-rightmost remote part (line ∷ lines) left hops p a read known parts h e unknown =
      rw (read, known, forwarded_parts_lem line lines, parts)
        (walk-rightmost (peer_ip net remote) part left hops a h e unknown)

  -- A peer that is no trusted proxy is the client, whatever it says in X-Forwarded-For.
  pub client_ip-direct :
      (remote : String) (lines : List String)
      → ((p : A) → net.parse_addr (peer_ip net remote) ≡ some p → is_trusted net p trusted ≡ false)
      → client_ip net remote trusted lines ≡ peer_ip net remote
  unfolding client_ip peer_ip
  client_ip-direct remote lines unknown = go (net.parse_addr (peer_ip net remote)) refl
    where
      go :
          (o : Option A)
          → net.parse_addr (peer_ip net remote) ≡ o
          → client_ip net remote trusted lines ≡ peer_ip net remote
      go none e = rw (client_ip, e) refl
      go (some p) e = rw (client_ip, e, unknown p e) refl
