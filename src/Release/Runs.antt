-- ===== src/Release/Runs.antt =====
-- Runs of the release checks on concrete versions and manifests.
use sparstrowgen.Prelude.{
  ℕ, zero, suc, ◌≡◌, refl, sym, ap, ◌∙◌, List, [], ◌∷◌, ◌++◌, Option, some, none, true, arith,
  length,
}
use mathlib.Core.Option.{some-injective}
use sparstrowgen.Text.{text_eq, Text, codes, has_prefix}
use sparstrowgen.Release.{
  Version, Manifest, Codecs, parse_version, newer, decode_hex, to_lower, same_site, encode, parse,
}
use sparstrowgen.Release.Versions.{printed, parse_version-printed}
use sparstrowgen.Release.Trust.{lowered, parse_trusted, parse-encode}

newest : newer (codes "v2.0.0") (codes "1.10.0") ≡ some true
unfolding newer
newest = refl

in_between : newer (codes "1.10.0") (codes "1.9.3") ≡ some true
unfolding newer
in_between = refl

abbrev one_twenty : Version
one_twenty = record { major = 1; minor = 20; patch = 300 }

parse_version-printed_example :
    (parse_version (printed one_twenty) ≡ some one_twenty)
    × (parse_version (b'v' ∷ printed one_twenty) ≡ some one_twenty)
parse_version-printed_example =
    parse_version-printed one_twenty (omega arith) (omega arith) (omega arith)

-- A format for manifests: each text's characters, one more than they are, up to a zero.
abbrev quote : Text → Text → Text
quote [] rest = 0 ∷ rest
quote (c ∷ s) rest = suc c ∷ quote s rest

abbrev longer : ℕ → Option (Text × Text) → Option (Text × Text)
longer c none = none
longer c (some (s, rest)) = some (c ∷ s, rest)

abbrev unquote : Text → Option (Text × Text)
unquote [] = none
unquote (zero ∷ rest) = some ([], rest)
unquote (suc c ∷ rest) = longer c (unquote rest)

abbrev read_sha : Text → Text → Option (Text × Text) → Option Manifest
read_sha v u none = none
read_sha v u (some (sha, rest)) = some (record { version = v; url = u; sha256 = sha })

abbrev read_url : Text → Option (Text × Text) → Option Manifest
read_url v none = none
read_url v (some (u, rest)) = read_sha v u (unquote rest)

abbrev read_version : Option (Text × Text) → Option Manifest
read_version none = none
read_version (some (v, rest)) = read_url v (unquote rest)

abbrev codecs : Codecs
codecs = record {
  unmarshal = λ t. read_version (unquote t);
  marshal_indent = λ m. some (quote m.version (quote m.url (quote m.sha256 [])));
  parse_url = λ t. some (record { scheme = codes "https"; host = codes "example.org" });
  equal_fold = λ a b. text_eq a b;
}

unquote-quote : (s rest : Text) → unquote (quote s rest) ≡ some (s, rest)
unquote-quote [] rest = refl
unquote-quote (c ∷ s) rest = ap (longer c) (unquote-quote s rest)

quote-append : (s rest t : Text) → quote s rest ++ t ≡ quote s (rest ++ t)
quote-append [] rest t = refl
quote-append (c ∷ s) rest t = ap (λ r. suc c ∷ r) (quote-append s rest t)

codecs_read :
    (n : Manifest) (b : Text)
    → codecs.marshal_indent n ≡ some b
    → codecs.unmarshal (b ++ (10 ∷ [])) ≡ some n
codecs_read n b e =
    ap (λ t. read_version (unquote (t ++ (10 ∷ [])))) (sym (some-injective _ _ e))
    ∙ ap (λ t. read_version (unquote t))
        (quote-append n.version _ _
          ∙ ap (quote n.version)
              (quote-append n.url _ _ ∙ ap (quote n.url) (quote-append n.sha256 _ _)))
    ∙ ap read_version (unquote-quote n.version _)
    ∙ ap (read_url n.version) (unquote-quote n.url _)
    ∙ ap (read_sha n.version n.url) (unquote-quote n.sha256 _)

abbrev digest : Text
digest = codes "00112233445566778899AABBCCDDEEFF00112233445566778899AABBCCDDEEFF"

abbrev published : Manifest
published = record {
  version = codes "1.10.0";
  url = codes "https://example.org/installer.exe";
  sha256 = digest;
}

abbrev published_body : Text
published_body =
    quote published.version (quote published.url (quote (to_lower digest) [])) ++ (10 ∷ [])

abbrev source : Text
source = codes "https://example.org/manifest.json"

published_encoded : encode codecs published ≡ some published_body
unfolding encode
published_encoded = refl

published_site : same_site codecs published.url source ≡ true
unfolding same_site text_eq
published_site = refl

parse-encode_example : parse codecs published_body source ≡ some (lowered published)
parse-encode_example =
    parse-encode codecs published published_body source codecs_read published_encoded published_site

published_parsed : parse codecs published_body source ≡ some (lowered published)
unfolding parse text_eq
published_parsed = refl

parse_trusted_example :
    ((v : Version) × (parse_version (lowered published).version ≡ some v))
    × (has_prefix (codes "https://") (lowered published).url ≡ true)
    × (same_site codecs (lowered published).url source ≡ true)
    × ((bytes : List ℕ) × (decode_hex (lowered published).sha256 ≡ some bytes)
        × (length bytes ≡ 32))
    × (to_lower (lowered published).sha256 ≡ (lowered published).sha256)
parse_trusted_example =
    parse_trusted codecs published_body source (lowered published) published_parsed
