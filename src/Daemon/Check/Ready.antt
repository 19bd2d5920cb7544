-- ===== src/Daemon/Check/Ready.antt =====
-- update.go, check: what it is worth that an installer is ready.
use sparstrowgen.Prelude.{
  zero, suc, length, take, ℕ, ◌+◌, ◌≤◌, ◌≡◌, ◌≢◌, ◌⊎◌, inl, inr, refl, sym, ap, subst, ◌∙◌, List,
  [], ◌∷◌, Option, some, none, Bool, true, false, ltb, leb, ◌==◌, ne_of_beq, string_eq, nat_eq,
  arith, Bool-cases,
}
use sparstrowgen.Protocol.{update_current, update_available, update_failed}
use sparstrowgen.Text.{Text, codes, has_prefix}
use sparstrowgen.Text.Equality.{text_eq_instance}
use sparstrowgen.Release.{
  Version, Manifest, Codecs, newer, parse, parse_version, same_site, decode_hex,
}
use sparstrowgen.Release.Trust.{parse_trusted}
use sparstrowgen.Release.Versions.{Later, newer_exact}
use sparstrowgen.Daemon.Web.{Response, no_response, response, read_limited}
use sparstrowgen.Daemon.Download.{
  Disk, Fetched, fetched, fetch_failed, Downloaded, downloaded, untrusted, download_failed, Outside,
  manifest_limit, after_read, received, fetch, download,
}
use sparstrowgen.Daemon.Check.{
  Found, Installer, after_download, after_compare, after_parse, after_fetch, check,
}
use sparstrowgen.Daemon.Check.Digest.{fetched_eq, HasDigest, download-HasDigest}

length-take_more : (n : ℕ) (t : Text) → n ≤ length t → length (take n t) ≡ n
length-take_more zero t h = refl
length-take_more (suc n) [] h = absurd (omega arith)
length-take_more (suc n) (c ∷ t) h = ap suc (length-take_more n t (omega arith))

-- What it is for an installer to be ready: the whole manifest came with status 200, within the limit;
-- its version is later than the running one; its address is an https address on the site that the
-- manifest came from; and the installer's file on the disk has the SHA-256 of 32 bytes that it names.
pub record IsReady (k : Codecs) (o : Outside) (current source : Text) (i : Installer) (disk : Disk)
    : Type 0 where
  pub status : Text
  pub body : Text
  pub manifest : Manifest
  pub answered : o.get source ≡ response 200 status body none
  pub within : length body ≤ manifest_limit
  pub is_parsed : parse k body source ≡ some manifest
  pub same_version : i.version ≡ manifest.version
  pub is_later :
      (v : Version) × (u : Version) × (parse_version i.version ≡ some v)
      × (parse_version current ≡ some u)
      × Later v u
  pub is_https : has_prefix (codes "https://") manifest.url ≡ true
  pub on_site : same_site k manifest.url source ≡ true
  pub is_digest : (bytes : List ℕ) × (decode_hex manifest.sha256 ≡ some bytes) × (length bytes ≡ 32)
  pub has_digest : HasDigest o i.path manifest.sha256 disk

failed_ne_available : update_failed ≢ update_available
failed_ne_available = ne_of_beq update_failed update_available refl

current_ne_available : update_current ≢ update_available
current_ne_available = ne_of_beq update_current update_available refl

-- What a fetch that answers has got.
abbrev Whole : Outside → Text → ℕ → Text → Type 0
Whole o url limit body =
    (status : Text) × (o.get url ≡ response 200 status body none) × (length body ≤ limit)

after_read-whole :
    (limit : ℕ) (got : Text) (stopped : Option Text) (body : Text)
    → after_read limit (got, stopped) ≡ fetched body
    → (stopped ≡ none) × (got ≡ body) × (length body ≤ limit)
unfolding after_read
after_read-whole limit got (some err) body e = cc e
after_read-whole limit got none body e = elim (Bool-cases (ltb limit (length got))) [
  | inl b ↦ cc (rw b at e)
  | inr b ↦
      let same : got ≡ body = fetched_eq (rw b at e) in
      (refl, same, subst (λ x. length x ≤ limit) same (ground (arith, b)))
]

read_limited-whole :
    (limit : ℕ) (text : Text) (stopped : Option Text) (body : Text)
    → after_read limit (read_limited (limit + 1) text stopped) ≡ fetched body
    → (stopped ≡ none) × (text ≡ body) × (length body ≤ limit)
unfolding read_limited
read_limited-whole limit text stopped body e = elim (Bool-cases (leb (limit + 1) (length text))) [
  | inr b ↦ after_read-whole limit text stopped body (rw (b, read_limited) at e)
  | inl b ↦
      let (_, same, small) =
        after_read-whole limit (take (limit + 1) text) none body (rw (b, read_limited) at e) in
      let long = length-take_more (limit + 1) text (ground (arith, b)) in
      let long' = ap length same in absurd (omega arith)
]

received-whole :
    (limit : ℕ) (r : Response) (body : Text)
    → received limit r ≡ fetched body
    → (status : Text) × (r ≡ response 200 status body none) × (length body ≤ limit)
unfolding received
received-whole limit (no_response err) body e = cc e
received-whole limit (response code status text stopped) body e = elim (Bool-cases (code == 200)) [
  | inr c ↦ cc (rw (c, received) at e)
  | inl c ↦
      let (whole, same, small) =
        read_limited-whole limit text stopped body (rw (c, received) at e) in
      (status, cc ((nat_eq.beq_iff code 200).0 c, whole, same), small)
]

module _ (k : Codecs) (o : Outside) (current source : Text) where
  abbrev Answer : (Found × Option Installer) × Disk → Type 0
  Answer (r, disk) =
      ((r.1 ≡ none) × (r.0.kind ≢ update_available))
      ⊎ ((i : Installer) × (r.1 ≡ some i)
          × IsReady k o current source i disk
          × (r.0 ≡ record { kind = update_available; version = i.version; message = [] }))

  newer-Later :
      (m : Manifest)
      → newer m.version current ≡ some true
      → (v : Version) × (u : Version) × (parse_version m.version ≡ some v)
        × (parse_version current ≡ some u)
        × Later v u
  newer-Later m n = elim (newer_exact m.version current) [
    | inl (none_, why) ↦ cc (sym none_ ∙ n)
    | inr (v, u, read_v, read_u, known, later) ↦ (v, u, read_v, read_u, later.0 n)
  ]

  Answer-download :
      (body : Text) (m : Manifest) (disk : Disk) (d : Downloaded)
      → Whole o source manifest_limit body
      → parse k body source ≡ some m
      → newer m.version current ≡ some true
      → (download o m disk).0 ≡ d
      → Answer (after_download current m d, (download o m disk).1)
  Answer-download body m disk (downloaded path) (status, answered, within) p n d =
      let (version, https, site, digest, lower) = parse_trusted k body source m p in
      inr (
        record { version = m.version; path = path },
        refl,
        record {
          status = status;
          body = body;
          manifest = m;
          answered = answered;
          within = within;
          is_parsed = p;
          same_version = refl;
          is_later = newer-Later m n;
          is_https = https;
          on_site = site;
          is_digest = digest;
          has_digest = download-HasDigest o m disk d;
        },
        refl,
      )
  Answer-download body m disk untrusted f p n d = inl (refl, failed_ne_available)
  Answer-download body m disk (download_failed err) f p n d = inl (refl, failed_ne_available)

  Answer-compare :
      (body : Text) (m : Manifest) (disk : Disk) (later : Option Bool)
      → Whole o source manifest_limit body
      → parse k body source ≡ some m
      → newer m.version current ≡ later
      → Answer (after_compare o current m later disk)
  Answer-compare body m disk none f p n = inl (refl, failed_ne_available)
  Answer-compare body m disk (some false) f p n = inl (refl, current_ne_available)
  Answer-compare body m disk (some true) f p n =
      Answer-download body m disk (download o m disk).0 f p n refl

  Answer-parse :
      (body : Text) (disk : Disk) (parsed : Option Manifest)
      → Whole o source manifest_limit body
      → parse k body source ≡ parsed
      → Answer (after_parse o current parsed disk)
  Answer-parse body disk none f p = inl (refl, failed_ne_available)
  Answer-parse body disk (some m) f p =
      Answer-compare body m disk (newer m.version current) f p refl

  Answer-fetch :
      (f : Fetched) (disk : Disk)
      → received manifest_limit (o.get source) ≡ f
      → Answer (after_fetch k o current source f disk)
  Answer-fetch (fetch_failed err) disk f = inl (refl, failed_ne_available)
  Answer-fetch (fetched body) disk f =
      Answer-parse body disk (parse k body source)
        (received-whole manifest_limit (o.get source) body f) refl

-- A check ends in one of two ways: with no installer, and then the status does not say that a version
-- is available; or with one, and then the status says that its version is available. The manifest then
-- came whole, with status 200 and within the limit, its version is later than the running one, it names
-- an https address on the site that it was fetched from and a digest of 32 bytes, and the installer's
-- file on the disk has this SHA-256.
pub check-IsReady :
    (k : Codecs) (o : Outside) (current source : Text) (disk : Disk)
    → let (r, disk') = check k o current source disk in
      ((r.1 ≡ none) × (r.0.kind ≢ update_available))
      ⊎ ((i : Installer) × (r.1 ≡ some i)
          × IsReady k o current source i disk'
          × (r.0 ≡ record { kind = update_available; version = i.version; message = [] }))
unfolding check fetch
check-IsReady k o current source disk =
    Answer-fetch k o current source (received manifest_limit (o.get source)) disk refl
