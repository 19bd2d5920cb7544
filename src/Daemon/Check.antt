-- ===== src/Daemon/Check.antt =====
-- update.go, check: looking for a newer version. The text of a wrapped error is given with it.
pub mod Digest
pub mod Ready
use sparstrowgen.Prelude.{String, [], ◌++◌, Option, some, none, Bool, true, false}
use sparstrowgen.Protocol.{update_current, update_available, update_failed}
use sparstrowgen.Text.{Text, codes}
use sparstrowgen.Release.{Manifest, Codecs, newer, parse}
use sparstrowgen.Daemon.Download.{
  Disk, Fetched, fetched, fetch_failed, Downloaded, downloaded, untrusted, download_failed, Outside,
  manifest_limit, fetch, download,
}

-- The status that a check answers.
pub record Found : Type 0 where
  pub kind : String
  pub version : Text
  pub message : Text

pub record Installer : Type 0 where
  pub version : Text
  pub path : Text

abbrev pub failed_with : Text → Found × Option Installer
failed_with message = (record { kind = update_failed; version = []; message = message }, none)

abbrev pub still_running : Text → Text
still_running current = codes " v" ++ current ++ codes " is still running."

abbrev pub after_download : Text → Manifest → Downloaded → Found × Option Installer
after_download current m (downloaded path) = (
  record { kind = update_available; version = m.version; message = [] },
  some (record { version = m.version; path = path }),
)
after_download current m untrusted = failed_with (
    codes "The download of v"
    ++ m.version
    ++ codes " did not match its published checksum, so nothing was installed."
    ++ still_running current)
after_download current m (download_failed err) = failed_with (
    codes "Could not download v"
    ++ m.version
    ++ codes " ("
    ++ err
    ++ codes ")."
    ++ still_running current)

abbrev pub after_compare :
    Outside → Text → Manifest → Option Bool → Disk → (Found × Option Installer) × Disk
after_compare o current m none disk = (
  failed_with
      (codes "Could not compare versions (" ++ o.newer_error m.version current ++ codes ")."),
  disk,
)
after_compare o current m (some false) disk =
    ((record { kind = update_current; version = []; message = [] }, none), disk)
after_compare o current m (some true) disk =
    let (r, disk') = download o m disk in (after_download current m r, disk')

abbrev pub after_parse : Outside → Text → Option Manifest → Disk → (Found × Option Installer) × Disk
after_parse o current none disk = (
  failed_with (
      codes "The update information was not valid, so nothing was downloaded."
      ++ still_running current),
  disk,
)
after_parse o current (some m) disk = after_compare o current m (newer m.version current) disk

abbrev pub after_fetch :
    Codecs → Outside → Text → Text → Fetched → Disk → (Found × Option Installer) × Disk
after_fetch k o current source (fetch_failed err) disk =
    (failed_with (codes "Could not check for updates (" ++ err ++ codes ")."), disk)
after_fetch k o current source (fetched body) disk =
    after_parse o current (parse k body source) disk

-- The status, the installer that is ready, if there is one, and the disk.
unfoldable pub check : Codecs → Outside → Text → Text → Disk → (Found × Option Installer) × Disk
unfolding parse newer fetch download
check k o current source disk = after_fetch k o current source (fetch o source manifest_limit) disk
