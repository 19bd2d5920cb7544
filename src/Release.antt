-- ===== src/Release.antt =====
-- server/internal/release/release.go: a daemon release as an installed computer sees it.
pub mod Versions
pub mod Trust
mod Runs
use sparstrowgen.Prelude.{
  ℕ, suc, ◌+◌, ◌-◌, ◌*◌, List, [], ◌∷◌, ◌++◌, Option, some, none, Bool, true, false, not, ◌&&◌,
  ◌||◌, ltb, leb, ◌==◌, nat_eq, map, length, if◌then◌else◌,
}
use sparstrowgen.Prelude.Int.{ℤ, pos, negsuc}
use sparstrowgen.Text.{text_eq, Text, codes, trim_space, trim_prefix, has_prefix, split, atoi}

-- [3]int
pub record Version : Type 0 where
  pub major : ℕ
  pub minor : ℕ
  pub patch : ℕ

-- `n, err := strconv.Atoi(p); if err != nil || n < 0`
abbrev natural : Option ℤ → Option ℕ
natural (some (pos n)) = some n
natural (some (negsuc n)) = none
natural none = none

abbrev pub version_of : Option ℕ → Option ℕ → Option ℕ → Option Version
version_of (some a) (some b) (some c) = some (record { major = a; minor = b; patch = c })
version_of (some a) (some b) none = none
version_of (some a) none c = none
version_of none b c = none

unfoldable pub parts_version : List Text → Option Version
unfolding atoi
parts_version (a ∷ b ∷ c ∷ []) = version_of (natural (atoi a)) (natural (atoi b)) (natural (atoi c))
parts_version (a ∷ b ∷ c ∷ d ∷ rest) = none
parts_version (a ∷ b ∷ []) = none
parts_version (a ∷ []) = none
parts_version [] = none

unfoldable pub parse_version : Text → Option Version
unfolding parts_version trim_space trim_prefix split
parse_version v = parts_version (split b'.' (trim_prefix (codes "v") (trim_space v)))

-- The loop of Newer.
unfoldable pub later : Version → Version → Bool
later c cur =
    if not (c.major == cur.major)
    then ltb cur.major c.major
    else if not (c.minor == cur.minor)
    then ltb cur.minor c.minor
    else if not (c.patch == cur.patch)
    then ltb cur.patch c.patch
    else false

abbrev compared : Option Version → Option Version → Option Bool
compared none cur = none
compared (some c) none = none
compared (some c) (some cur) = some (later c cur)

-- None is an error.
unfoldable pub newer : Text → Text → Option Bool
unfolding parse_version later
newer candidate current = compared (parse_version candidate) (parse_version current)

pub record Manifest : Type 0 where
  pub version : Text
  pub url : Text
  pub sha256 : Text

-- net/url's view of a URL.
pub record Url : Type 0 where
  pub scheme : Text
  pub host : Text

-- encoding/json for a manifest, net/url, and strings.EqualFold.
pub record Codecs : Type 0 where
  pub unmarshal : Text → Option Manifest
  pub marshal_indent : Manifest → Option Text
  pub parse_url : Text → Option Url
  pub equal_fold : Text → Text → Bool

unfoldable pub hex_value : ℕ → Option ℕ
hex_value c =
    if leb b'0' c && leb c b'9'
    then some (c - 48)
    else if leb b'a' c && leb c b'f'
    then some (c - 87)
    else if leb b'A' c && leb c b'F'
    then some (c - 55)
    else none

abbrev byte_then : Option ℕ → Option ℕ → Option (List ℕ) → Option (List ℕ)
byte_then (some h) (some l) (some rest) = some ((h * 16 + l) ∷ rest)
byte_then (some h) (some l) none = none
byte_then (some h) none rest = none
byte_then none l rest = none

-- hex.DecodeString.
unfoldable pub decode_hex : Text → Option (List ℕ)
unfolding hex_value
decode_hex [] = some []
decode_hex (a ∷ []) = none
decode_hex (a ∷ b ∷ s) = byte_then (hex_value a) (hex_value b) (decode_hex s)

-- strings.ToLower, on the ASCII texts that pass `validate`.
unfoldable pub to_lower : Text → Text
to_lower = map (λ c. if leb b'A' c && leb c b'Z' then c + 32 else c)

abbrev has_size : ℕ → Option (List ℕ) → Bool
has_size n none = false
has_size n (some b) = length b == n

abbrev is_version : Option Version → Bool
is_version none = false
is_version (some v) = true

-- Whether `validate` returns nil.
unfoldable pub validate : Manifest → Bool
unfolding parse_version has_prefix decode_hex
validate m =
    is_version (parse_version m.version)
    && has_prefix (codes "https://") m.url
    && has_size 32 (decode_hex m.sha256)

abbrev same : Codecs → Option Url → Option Url → Bool
same k none b = false
same k (some a) none = false
same k (some a) (some b) =
    text_eq a.scheme (codes "https")
    && text_eq b.scheme (codes "https")
    && not (text_eq a.host [])
    && k.equal_fold a.host b.host

unfoldable pub same_site : Codecs → Text → Text → Bool
same_site k a b = same k (k.parse_url a) (k.parse_url b)

abbrev ended : Option Text → Option Text
ended none = none
ended (some body) = some (body ++ (10 ∷ []))

unfoldable pub encode : Codecs → Manifest → Option Text
unfolding validate to_lower
encode k m =
    let m' : Manifest = record m { sha256 = to_lower m.sha256 } in
    if validate m' then ended (k.marshal_indent m') else none

abbrev trusted : Codecs → Text → Option Manifest → Option Manifest
trusted k source none = none
trusted k source (some m) =
    if not (validate m)
    then none
    else if not (same_site k m.url source)
    then none
    else some (record m { sha256 = to_lower m.sha256 })

-- None is ErrUntrusted.
unfoldable pub parse : Codecs → Text → Text → Option Manifest
unfolding validate same_site to_lower
parse k body source = trusted k source (k.unmarshal body)
