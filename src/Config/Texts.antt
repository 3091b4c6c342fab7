-- ===== src/Config/Texts.antt =====
-- The functions of Go's strings package that internal/config/config.go calls on texts, character
-- by character: Split at commas, Contains of a slash, TrimRight of slashes, and len in bytes.
use Prim.Native.Char.{Char, code}
use Prim.Native.String.{String}
use ky_server_base.Prelude.{is_char, ℕ, ◌+◌, Bool, true, false, List, [], ◌∷◌, if◌then◌else◌, ltb}

-- The first field of a split, longer by a character.
abbrev pub push_char : Char → List String → List String
push_char c [] = String.◌∷◌ c String.[] ∷ []
push_char c (field ∷ fields) = String.◌∷◌ c field ∷ fields

-- strings.Split(raw, ",")
unfoldable pub split_commas : String → List String
split_commas String.[] = String.[] ∷ []
split_commas (String.◌∷◌ c s) =
    let rest = split_commas s in if is_char b',' c then String.[] ∷ rest else push_char c rest

-- strings.Contains(field, "/")
unfoldable pub has_slash : String → Bool
has_slash String.[] = false
has_slash (String.◌∷◌ c s) = if is_char b'/' c then true else has_slash s

abbrev drop_slash : Char → String → String
drop_slash c String.[] = if is_char b'/' c then String.[] else String.◌∷◌ c String.[]
drop_slash c s = String.◌∷◌ c s

-- strings.TrimRight(url, "/")
unfoldable pub trim_right_slashes : String → String
trim_right_slashes String.[] = String.[]
trim_right_slashes (String.◌∷◌ c s) = drop_slash c (trim_right_slashes s)

abbrev utf8_size : ℕ → ℕ
utf8_size n = if ltb n 128 then 1 else if ltb n 2048 then 2 else if ltb n 65536 then 3 else 4

-- len(s): the bytes of the text's UTF-8.
unfoldable pub byte_len : String → ℕ
byte_len String.[] = 0
byte_len (String.◌∷◌ c s) = utf8_size (code c) + byte_len s
