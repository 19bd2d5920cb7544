-- ===== src/Daemon/Download.antt =====
-- update.go, fetch and download, with removeOtherDownloads, and release.go, FileSHA256. The disk is a map
-- from paths to what the files hold.
use sparstrowgen.Prelude.{
  length, ℕ, ◌+◌, ◌*◌, ◌^◌, List, [], ◌∷◌, ◌++◌, Option, some, none, Bool, false, not, ◌&&◌, ◌||◌,
  ltb, ◌==◌, nat_eq, if◌then◌else◌,
}
use sparstrowgen.Prelude.Maps.{Map, lookup, insert, delete}
use sparstrowgen.Text.{Text, codes, text_eq}
use sparstrowgen.Text.Equality.{text_eq_instance}
use sparstrowgen.Release.{Manifest}
use sparstrowgen.Daemon.Web.{Response, no_response, response, read_limited}

abbrev pub Disk : Type 0
Disk = Map Text Text

pub data Fetched : Type 0 where
  fetched fetch_failed : Text → Fetched

-- `untrusted` is release.ErrUntrusted.
pub data Downloaded : Type 0 where
  downloaded : Text → Downloaded
  untrusted : Downloaded
  download_failed : Text → Downloaded

-- The HTTP client, the file system, crypto/sha256 with encoding/hex, filepath, and the text of an error
-- of release.Newer. An operation that can fail answers the text of its error, or none. `part` is what a
-- file has of a text when writing it failed; `downloads` is filepath.Glob's answer in the folder.
pub record Outside : Type 0 where
  pub get : Text → Response
  pub make_folder : Option Text
  pub path_of : Text → Text
  pub base : Text → Text
  pub can_read : Text → Bool
  pub sha256_hex : Text → Text
  pub open_partial : Option Text
  pub write_error : Option Text
  pub part : Text → Text
  pub removes : Text → Bool
  pub rename_error : Option Text
  pub downloads : Disk → List Text
  pub newer_error : Text → Text → Text

abbrev pub manifest_limit : ℕ
manifest_limit = 64 * 2 ^ 10

abbrev pub installer_limit : ℕ
installer_limit = 256 * 2 ^ 20

unfoldable pub after_read : ℕ → Text × Option Text → Fetched
after_read limit (body, some err) = fetch_failed err
after_read limit (body, none) =
    if ltb limit (length body)
    then fetch_failed (codes "the update server sent more than expected")
    else fetched body

unfoldable pub received : ℕ → Response → Fetched
unfolding after_read read_limited
received limit (no_response err) = fetch_failed err
received limit (response code status body stopped) =
    if not (code == 200)
    then fetch_failed (codes "the update server answered " ++ status)
    else after_read limit (read_limited (limit + 1) body stopped)

unfoldable pub fetch : Outside → Text → ℕ → Fetched
unfolding received
fetch o url limit = received limit (o.get url)

unfoldable pub file_sha256 : Outside → Text → Disk → Option Text
unfolding lookup text_eq
file_sha256 o path disk = elim (lookup path disk) [
  | none ↦ none
  | some content ↦ if o.can_read path then some (o.sha256_hex content) else none
]

-- os.Remove; its error is dropped.
unfoldable pub remove : Outside → Text → Disk → Disk
unfolding delete text_eq
remove o path disk = if o.removes path then delete path disk else disk

unfoldable pub remove_each : Outside → Text → List Text → Disk → Disk
unfolding text_eq
remove_each o keep [] disk = disk
remove_each o keep (path ∷ paths) disk = remove_each o keep paths (
    if not (text_eq path keep) && not (text_eq (o.base path) (codes "sparstrowgen-updater.exe"))
    then remove o path disk
    else disk)

unfoldable pub remove_other_downloads : Outside → Text → Disk → Disk
unfolding remove_each
remove_other_downloads o keep disk = remove_each o keep (o.downloads disk) disk

-- The error of io.Copy or else of Close.
abbrev pub first_error : Option Text → Option Text → Option Text
first_error none later = later
first_error (some err) later = some err

-- From the copying on, with what could be read of the response's body.
unfoldable pub keep_download :
    Outside → Manifest → Text → Text × Option Text → Disk → Downloaded × Disk
unfolding insert delete text_eq remove remove_other_downloads
keep_download o m path (got, stopped) disk =
    let partial = path ++ codes ".partial" in
    let disk' = insert partial got disk in
    elim (first_error o.write_error stopped) [
      | some err ↦ (download_failed err, remove o partial (insert partial (o.part got) disk))
      | none ↦
          if ltb installer_limit (length got) || not (text_eq (o.sha256_hex got) m.sha256)
          then (untrusted, remove o partial disk')
          else elim o.rename_error [
            | some err ↦ (download_failed err, disk')
            | none ↦ (
              downloaded path,
              remove_other_downloads o path (insert path got (delete partial disk')),
            )
          ]
    ]

-- From the response on.
unfoldable pub save : Outside → Manifest → Text → Response → Disk → Downloaded × Disk
unfolding read_limited keep_download
save o m path (no_response err) disk = (download_failed err, disk)
save o m path (response code status body stopped) disk =
    if not (code == 200)
    then (download_failed (codes "the download server answered " ++ status), disk)
    else elim o.open_partial [
      | some err ↦ (download_failed err, disk)
      | none ↦ keep_download o m path (read_limited (installer_limit + 1) body stopped) disk
    ]

-- Whether a file of the manifest's digest is there already.
unfoldable pub is_kept : Outside → Manifest → Text → Disk → Bool
unfolding file_sha256 text_eq
is_kept o m path disk = elim (file_sha256 o path disk) [
  | none ↦ false
  | some sum ↦ text_eq sum m.sha256
]

unfoldable pub installer_path : Outside → Manifest → Text
installer_path o m = o.path_of (codes "sparstrowgen-" ++ m.version ++ codes ".exe")

unfoldable pub download : Outside → Manifest → Disk → Downloaded × Disk
unfolding installer_path is_kept save
download o m disk =
    let path = installer_path o m in
    elim o.make_folder [
      | some err ↦ (download_failed err, disk)
      | none ↦
          if is_kept o m path disk
          then (downloaded path, disk)
          else save o m path (o.get m.url) disk
    ]
