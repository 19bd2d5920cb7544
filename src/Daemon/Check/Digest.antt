-- ===== src/Daemon/Check/Digest.antt =====
-- update.go, download: the SHA-256 of the file that is kept.
use sparstrowgen.Prelude.{
  length, ◌+◌, ◌≡◌, inl, inr, refl, subst, List, [], ◌∷◌, ◌++◌, Option, some, Bool, true, false,
  not, ◌||◌, ltb, ◌==◌, string_eq, nat_eq, arith, Bool-cases, Option-cases,
}
use sparstrowgen.Prelude.Maps.{lookup, insert, delete, lookup-insert_self, lookup-delete}
use sparstrowgen.Text.{Text, codes, text_eq}
use sparstrowgen.Text.Equality.{text_eq_instance, text_eq_sound, text_eq_iff}
use sparstrowgen.Release.{Manifest}
use sparstrowgen.Daemon.Web.{Response, no_response, response, read_limited}
use sparstrowgen.Daemon.Download.{
  Disk, fetched, downloaded, Outside, installer_limit, file_sha256, remove, remove_each,
  remove_other_downloads, keep_download, save, is_kept, first_error, installer_path, download,
}

abbrev is_bad : Outside → Manifest → Text → Bool
is_bad o m got = ltb installer_limit (length got) || not (text_eq (o.sha256_hex got) m.sha256)

or_not : (a b : Bool) → a || not b ≡ false → b ≡ true
or_not true b e = cc e
or_not false true e = refl
or_not false false e = cc e

-- A file on the disk whose SHA-256 is a digest.
abbrev pub HasDigest : Outside → Text → Text → Disk → Type 0
HasDigest o path digest disk =
    (content : Text) × (lookup path disk ≡ some content) × (o.sha256_hex content ≡ digest)

remove_each-keeps :
    (o : Outside) (keep content : Text) (paths : List Text) (disk : Disk)
    → lookup keep disk ≡ some content
    → lookup keep (remove_each o keep paths disk) ≡ some content
unfolding remove_each remove
remove_each-keeps o keep content [] disk e = e
remove_each-keeps o keep content (path ∷ paths) disk e =
    remove_each-keeps o keep content paths _
      (ground (arith, e, lookup-delete path keep disk, text_eq_iff path keep))

downloaded_eq : {a b : Text} → downloaded a ≡ downloaded b → a ≡ b
downloaded_eq e = cc e

pub fetched_eq : {a b : Text} → fetched a ≡ fetched b → a ≡ b
fetched_eq e = cc e

keep_download-HasDigest :
    (o : Outside) (m : Manifest) (path : Text) (got : Text) (stopped : Option Text) (disk : Disk)
    {kept : Text}
    → (keep_download o m path (got, stopped) disk).0 ≡ downloaded kept
    → HasDigest o kept m.sha256 (keep_download o m path (got, stopped) disk).1
unfolding keep_download remove_other_downloads
keep_download-HasDigest o m path got stopped disk {kept} e =
    elim (Option-cases (first_error o.write_error stopped)) [
      | inr (err, f) ↦ cc (simp (f, keep_download) at e)
      | inl f ↦ elim (Bool-cases (is_bad o m got)) [
        | inl b ↦ cc (simp (f, b, keep_download) at e)
        | inr b ↦ elim (Option-cases o.rename_error) [
          | inr (err, r) ↦ cc (simp (f, b, r, keep_download) at e)
          | inl r ↦
              let same : path ≡ kept = downloaded_eq (simp (f, b, r, keep_download) at e) in
              let matches : text_eq (o.sha256_hex got) m.sha256 ≡ true =
                or_not (ltb installer_limit (length got)) _ b in
              let partial = path ++ codes ".partial" in
              let moved : Disk = insert path got (delete partial (insert partial got disk)) in
              let there =
                remove_each-keeps o path got (o.downloads moved) moved
                  (lookup-insert_self path got (delete partial (insert partial got disk))) in
              simp (f, b, r, keep_download)
                (subst (λ x. HasDigest o x m.sha256 (remove_other_downloads o path moved)) same
                  (got, there, text_eq_sound _ _ matches))
        ]
      ]
    ]

save-HasDigest :
    (o : Outside) (m : Manifest) (path : Text) (r : Response) (disk : Disk) {kept : Text}
    → (save o m path r disk).0 ≡ downloaded kept
    → HasDigest o kept m.sha256 (save o m path r disk).1
unfolding save
save-HasDigest o m path (no_response err) disk e = cc e
save-HasDigest o m path (response code status body stopped) disk e =
    elim (Bool-cases (code == 200)) [
      | inr c ↦ cc (simp (c, save) at e)
      | inl c ↦ elim (Option-cases o.open_partial) [
        | inr (err, p) ↦ cc (simp (c, p, save) at e)
        | inl p ↦
            let (got, stopped') = read_limited (installer_limit + 1) body stopped in
            simp (c, p, save)
              (keep_download-HasDigest o m path got stopped' disk (simp (c, p, save) at e))
      ]
    ]

is_kept-HasDigest :
    (o : Outside) (m : Manifest) (path : Text) (disk : Disk)
    → is_kept o m path disk ≡ true
    → HasDigest o path m.sha256 disk
unfolding is_kept file_sha256
is_kept-HasDigest o m path disk e = elim (Option-cases (lookup path disk)) [
  | inl n ↦ cc (simp (n, is_kept, file_sha256) at e)
  | inr (content, n) ↦ elim (Bool-cases (o.can_read path)) [
    | inr b ↦ cc (simp (n, b, is_kept, file_sha256) at e)
    | inl b ↦ (content, n, text_eq_sound _ _ (simp (n, b, is_kept, file_sha256) at e))
  ]
]

-- What a download answers without an error has the digest of the manifest.
pub download-HasDigest :
    (o : Outside) (m : Manifest) (disk : Disk) {kept : Text}
    → (download o m disk).0 ≡ downloaded kept
    → HasDigest o kept m.sha256 (download o m disk).1
unfolding download
download-HasDigest o m disk {kept} e = elim (Option-cases o.make_folder) [
  | inr (err, f) ↦ cc (simp (f, download) at e)
  | inl f ↦ elim (Bool-cases (is_kept o m (installer_path o m) disk)) [
    | inl b ↦
        let same : installer_path o m ≡ kept = downloaded_eq (simp (f, b, download) at e) in
        simp (f, b, download)
          (subst (λ x. HasDigest o x m.sha256 disk) same
            (is_kept-HasDigest o m (installer_path o m) disk b))
    | inr b ↦
        simp (f, b, download)
          (save-HasDigest o m (installer_path o m) (o.get m.url) disk (simp (f, b, download) at e))
  ]
]
