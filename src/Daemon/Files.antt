-- ===== src/Daemon/Files.antt =====
-- files.go: a conversation's files on this computer, and what a turn's prompt says of them. A disk is a
-- map from paths to files. filepath, the server and the file system are given by `Host`.
pub mod Prompt
pub mod Placed
pub mod Round
pub mod Attached
mod Runs
use sparstrowgen.Prelude.{
  ℕ, ◌≡◌, String, List, [], ◌∷◌, ◌++◌, Option, some, none, Bool, true, false, not, ◌&&◌, ◌||◌, ◌==◌,
  string_eq, nat_eq, if◌then◌else◌, length, leb, ◌+◌, ◌*◌, ◌^◌,
}
use sparstrowgen.Prelude.Maps.{Map, lookup, insert, delete}
use sparstrowgen.Prelude.Int.{ℤ, pos, negsuc}
use sparstrowgen.Text.{Text, codes, text_eq}
use sparstrowgen.Text.Equality.{text_eq_instance}
use sparstrowgen.Protocol.Files.{TurnFile}
use sparstrowgen.Daemon.Web.{Response, no_response, response, read_limited}

abbrev pub Disk : Type 0
Disk = Map Text Text

pub record Host : Type 0 where
  -- filepath.Base(filepath.FromSlash(_)), filepath.Join and filepath.Ext.
  pub base : Text → Text
  pub join : Text → Text → Text
  pub ext : Text → Text
  pub lower : Text → Text
  pub makes_folder : Text → Bool
  -- What asking the server for a file comes to.
  pub request : String → Response
  -- os.CreateTemp in a path's folder: the new file's path.
  pub create_temp : Text → Disk → Option Text
  -- Whether a text can be written to a file and the file be closed, and what is in it if not.
  pub writes : Text → Bool
  pub part : Text → Text
  pub removes : Text → Bool
  pub renames : Text → Text → Bool
  pub chats : Text

pub record PreparedFile : Type 0 where
  pub path : Text
  pub name : Text
  pub media_type : String
  pub size : ℤ

pub record PreparedFiles : Type 0 where
  pub folder : Text
  pub uploads : Text
  pub outputs : Text
  pub attached : List PreparedFile
  pub known : List Text

abbrev pub no_files : PreparedFiles
no_files = record { folder = []; uploads = []; outputs = []; attached = []; known = [] }

-- strings.ContainsAny(_, `/\:.`).
unfoldable pub leaves_folder : Text → Bool
leaves_folder [] = false
leaves_folder (c ∷ s) = (c == b'/' || c == 92 || c == b':' || c == b'.') || leaves_folder s

unfoldable pub subfolder : String → Text
subfolder origin = if origin == "output" then codes "outputs" else codes "uploads"

unfoldable pub folder : Host → Text → Option Text
unfolding leaves_folder
folder h [] = none
folder h (c ∷ id) = if leaves_folder (c ∷ id) then none else some (h.join h.chats (c ∷ id))

unfoldable pub usable : Host → TurnFile → Bool
unfolding text_eq
usable h f =
    let name = h.base (codes f.name) in
    text_eq name (codes f.name) && not (text_eq name (codes ".") || text_eq name (codes ".."))

unfoldable pub destination : Host → Text → TurnFile → Text
unfolding subfolder
destination h folder f = h.join (h.join folder (subfolder f.origin)) (h.base (codes f.name))

abbrev pub is_none : Option Text → Bool
is_none none = true
is_none (some err) = false

abbrev pub max_file_bytes : ℕ
max_file_bytes = 25 * 2 ^ 20

unfoldable pub size_is : ℤ → Text → Bool
size_is (pos n) content = length content == n
size_is (negsuc n) content = false

unfoldable pub is_there : Text → TurnFile → Disk → Bool
unfolding lookup text_eq size_is
is_there dest f disk = elim (lookup dest disk) [
  | none ↦ false
  | some content ↦ size_is f.size content
]

-- os.Remove; its error is dropped.
unfoldable pub remove : Host → Text → Disk → Disk
unfolding delete text_eq
remove h path disk = if h.removes path then delete path disk else disk

-- From os.CreateTemp on, with what could be read of the response's body.
unfoldable pub put_in_place : Host → Text → Text × Option Text → Disk → Disk × Bool
unfolding insert delete text_eq remove
put_in_place h dest (got, stopped) disk = elim (h.create_temp dest disk) [
  | none ↦ (disk, false)
  | some tmp ↦
      if is_none stopped && h.writes got
      then (let cleared = remove h dest (insert tmp got disk) in
          if h.renames tmp dest
          then (insert dest got (delete tmp cleared), true)
          else (cleared, false))
      else (remove h tmp (insert tmp (h.part got) disk), false)
]

-- request, and then download.
unfoldable pub after_request : Host → Text → Response → Disk → Disk × Bool
unfolding put_in_place read_limited
after_request h dest (no_response err) disk = (disk, false)
after_request h dest (response code status body stopped) disk =
    if leb 300 code
    then (disk, false)
    else put_in_place h dest (read_limited (max_file_bytes + 1) body stopped) disk

-- download: the disk behind it, and whether it answers without an error.
unfoldable pub download : Host → String → Text → Disk → Disk × Bool
unfolding after_request
download h id dest disk = after_request h dest (h.request id) disk

abbrev pub prepared_file : Host → Text → TurnFile → PreparedFile
prepared_file h folder f = record {
  path = destination h folder f;
  name = h.base (codes f.name);
  media_type = f.media_type;
  size = f.size;
}

unfoldable pub note_output : Host → TurnFile → PreparedFiles → PreparedFiles
note_output h f p =
    if f.origin == "output"
    then record p { known = h.lower (h.base (codes f.name)) ∷ p.known }
    else p

unfoldable pub note_attached : Host → TurnFile → PreparedFiles → PreparedFiles
note_attached h f p =
    if f.attached then record p { attached = p.attached ++ prepared_file h p.folder f ∷ [] } else p

-- One round of the loop: the files so far, none if the turn fails, and the disk.
unfoldable pub prepare_file : Host → TurnFile → PreparedFiles → Disk → Option PreparedFiles × Disk
prepare_file h f p disk =
    let q = note_output h f p in
    let dest = destination h p.folder f in
    if not (usable h f)
    then (some p, disk)
    else if is_there dest f disk
    then (some (note_attached h f q), disk)
    else (let (disk', fetched) = download h f.id dest disk in
        if fetched
        then (some (note_attached h f q), disk')
        else if f.attached
        then (none, disk')
        else (some q, disk'))

unfoldable pub prepare_files :
    Host → List TurnFile → PreparedFiles → Disk → Option PreparedFiles × Disk
prepare_files h [] p disk = (some p, disk)
prepare_files h (f ∷ fs) p disk =
    let (done, disk') = prepare_file h f p disk in
    elim done [ none ↦ (none, disk') | some q ↦ prepare_files h fs q disk' ]

unfoldable pub prepare : Host → Text → List TurnFile → Disk → Option PreparedFiles × Disk
prepare h conversation files disk = elim (folder h conversation) [
  | none ↦ (none, disk)
  | some dir ↦
      let uploads = h.join dir (codes "uploads") in
      let outputs = h.join dir (codes "outputs") in
      if h.makes_folder uploads && h.makes_folder outputs
      then prepare_files h files
          (record { folder = dir; uploads = uploads; outputs = outputs; attached = []; known = [] })
          disk
      else (none, disk)
]
