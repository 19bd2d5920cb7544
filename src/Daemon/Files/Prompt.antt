-- ===== src/Daemon/Files/Prompt.antt =====
-- files.go and main.go: the prompt of a turn, with what it says of the files and the catch-up.
use sparstrowgen.Prelude.{
  ℕ, ◌-◌, String, List, [], ◌∷◌, ◌++◌, map, Option, some, none, Bool, not, ◌&&◌, ◌||◌, ltb, ◌==◌,
  string_eq, nat_eq, if◌then◌else◌, length, drop,
}
use mathlib.Core.List.{reverse}
use sparstrowgen.Prelude.Maps.{lookup}
use sparstrowgen.Prelude.Int.{pos, ltz}
use sparstrowgen.Text.{concat, Text, codes, text_eq, has_prefix, trim_space, trim_right_by, join}
use sparstrowgen.Text.Equality.{text_eq_instance}
use sparstrowgen.Text.Decimal.{print}
use sparstrowgen.Protocol.Files.{ReplayFile, ReplayEntry}
use sparstrowgen.Agent.Parsed.{is_blank}
use sparstrowgen.Daemon.Files.{Host, Disk, PreparedFile, PreparedFiles, subfolder}

abbrev text_inline : ℕ
text_inline = 102400

abbrev max_replay_pictures : ℕ
max_replay_pictures = 8

unfoldable pub is_picture : String → Bool
is_picture media_type =
    media_type == "image/png"
    || media_type == "image/jpeg"
    || media_type == "image/gif"
    || media_type == "image/webp"

-- strings.HasSuffix.
abbrev has_suffix : Text → Text → Bool
has_suffix suffix s = has_prefix (reverse suffix) (reverse s)

unfoldable pub is_text : String → Bool
unfolding has_prefix
is_text media_type =
    has_prefix (codes "text/") (codes media_type)
    || media_type == "application/json"
    || media_type == "application/xml"
    || has_suffix (codes "+json") (codes media_type)

-- The content of a small text file, which is not there if it is no UTF-8.
unfoldable pub inline_text : (Text → Bool) → Disk → PreparedFile → Option Text
unfolding is_text lookup trim_right_by text_eq
inline_text valid disk f =
    if not (is_text f.media_type) || ltz (pos text_inline) f.size
    then none
    else elim (lookup f.path disk) [
      | none ↦ none
      | some content ↦ if valid content then some (trim_right_by (λ c. c == 10) content) else none
    ]

unfoldable pub pictures_of : List PreparedFile → List Text
unfolding is_picture
pictures_of [] = []
pictures_of (f ∷ fs) =
    let rest = pictures_of fs in if is_picture f.media_type then f.path ∷ rest else rest

unfoldable pub others_of : List PreparedFile → List PreparedFile
unfolding is_picture
others_of [] = []
others_of (f ∷ fs) = let rest = others_of fs in if is_picture f.media_type then rest else f ∷ rest

unfoldable pub told_of : (Text → Bool) → Disk → PreparedFile → Text
unfolding inline_text
told_of valid disk f = elim (inline_text valid disk f) [
  | some content ↦
      codes "\n\nThe file "
      ++ f.name
      ++ codes " was sent with this message. Its contents:\n```\n"
      ++ content
      ++ codes "\n```"
  | none ↦
      codes "\n\nThe file "
      ++ f.name
      ++ codes " was sent with this message, but it cannot be opened with the permissions you "
      ++ codes "have here. If the answer depends on it, say so."
]

abbrev pictures_told : List Text → Text
pictures_told [] = []
pictures_told (i ∷ is) =
    codes "\n\n"
    ++ print (length (i ∷ is))
    ++ codes " picture(s) sent with this message are attached."

unfoldable pub attached_told : (Text → Bool) → String → Disk → List PreparedFile → Text
unfolding pictures_of others_of told_of print
attached_told valid provider disk [] = []
attached_told valid provider disk (f ∷ fs) =
    if provider == "codex"
    then pictures_told (pictures_of (f ∷ fs))
      ++ concat (map (told_of valid disk) (others_of (f ∷ fs)))
    else codes "\n\nFiles sent with this message:"
      ++ concat (map (λ g. codes "\n- " ++ g.path) (f ∷ fs))

-- The note that follows the message, and the pictures for codex.
unfoldable pub files_prompt : (Text → Bool) → String → Disk → PreparedFiles → Text × List Text
unfolding attached_told pictures_of
files_prompt valid provider disk p =
    let outputs =
      if not (provider == "codex") && not (is_blank p.outputs)
      then codes "\n\nIf you make a file for me that is not part of the project (a picture, a "
        ++ codes "document, an export), save it in "
        ++ p.outputs
        ++ codes " so it appears in our chat. Files that belong in the project go where they "
        ++ codes "normally would."
      else [] in
    (
      attached_told valid provider disk p.attached ++ outputs,
      if provider == "codex" then pictures_of p.attached else [],
    )

abbrev replay_path : Host → PreparedFiles → ReplayFile → Text
replay_path h p f = h.join (h.join p.folder (subfolder f.origin)) (codes f.name)

unfoldable pub files_listed : Host → String → PreparedFiles → List ReplayFile → Text
unfolding subfolder join
files_listed h role p [] = []
files_listed h role p (f ∷ fs) =
    codes "\n(Files "
    ++ (if role == "agent" then codes "made in this turn" else codes "sent with this message")
    ++ codes ": "
    ++ join (codes ", ") (map (replay_path h p) (f ∷ fs))
    ++ codes ")"

unfoldable pub replay_files : Host → ReplayEntry → PreparedFiles → Text
unfolding files_listed
replay_files h e p = if is_blank p.folder then [] else files_listed h e.role p e.files

abbrev picture_ext : Text → Bool
picture_ext e =
    text_eq e (codes ".png")
    || text_eq e (codes ".jpg")
    || text_eq e (codes ".jpeg")
    || text_eq e (codes ".webp")
    || text_eq e (codes ".gif")

unfoldable pub entry_pictures : Host → Disk → PreparedFiles → List ReplayFile → List Text
unfolding subfolder lookup text_eq
entry_pictures h disk p [] = []
entry_pictures h disk p (f ∷ fs) =
    let rest = entry_pictures h disk p fs in
    if picture_ext (h.lower (h.ext (codes f.name)))
    then elim (lookup (replay_path h p f) disk) [ none ↦ rest | some s ↦ replay_path h p f ∷ rest ]
    else rest

unfoldable pub all_pictures : Host → Disk → PreparedFiles → List ReplayEntry → List Text
unfolding entry_pictures
all_pictures h disk p [] = []
all_pictures h disk p (e ∷ es) = entry_pictures h disk p e.files ++ all_pictures h disk p es

-- The newest of them, at most eight.
unfoldable pub replay_pictures : Host → Disk → List ReplayEntry → PreparedFiles → List Text
unfolding all_pictures
replay_pictures h disk replay p =
    if is_blank p.folder
    then []
    else (let out = all_pictures h disk p replay in
        if ltb max_replay_pictures (length out)
        then drop (length out - max_replay_pictures) out
        else out)

unfoldable pub replayed : Host → PreparedFiles → ReplayEntry → Text
unfolding replay_files trim_space
replayed h p e =
    let told = trim_space e.text ++ replay_files h e p ++ codes "\n" in
    if e.role == "user"
    then codes "\n[user]\n" ++ told
    else if e.role == "agent"
    then codes "\n[" ++ codes e.provider ++ codes "]\n" ++ told
    else []

abbrev joining : Text
joining =
    codes "You are joining a conversation already in progress. "
    ++ codes "Earlier turns are below, some answered by a different coding agent. "
    ++ codes "Read them for context, then answer the final message.\n\n"
    ++ codes "--- conversation so far ---\n"

abbrev catch_up : Host → PreparedFiles → List ReplayEntry → Text
catch_up h p [] = []
catch_up h p (e ∷ es) =
    joining
    ++ concat (map (replayed h p) (e ∷ es))
    ++ codes "--- end of conversation so far ---\n\n"
    ++ codes "[user]\n"

unfoldable pub build_prompt :
    Host
    → (Text → Bool)
    → String
    → Text
    → List ReplayEntry
    → Disk
    → PreparedFiles
    → Text × List Text
unfolding files_prompt replay_pictures replayed
build_prompt h valid provider prompt replay disk p =
    let (note, images) = files_prompt valid provider disk p in
    (
      catch_up h p replay ++ prompt ++ note,
      if provider == "codex" then replay_pictures h disk replay p ++ images else images,
    )
