-- ===== src/Daemon/Files/Runs.antt =====
-- A turn's files and its prompt on a concrete computer.
use sparstrowgen.Prelude.{
  ◌≡◌, ◌≢◌, sym, ◌∙◌, refl, String, List, [], ◌∷◌, ◌++◌, some, none, Bool, true, false, Distinct,
  is_some, Option-cases, inl, inr, subst, if◌then◌else◌,
}
use sparstrowgen.Prelude.Maps.{lookup, insert}
use sparstrowgen.Prelude.Int.{pos}
use sparstrowgen.Text.{Text, codes, text_eq}
use sparstrowgen.Text.Equality.{text_eq_instance, text_eq_iff}
use sparstrowgen.Protocol.Files.{TurnFile}
use sparstrowgen.Daemon.Files.{
  Host, PreparedFiles, usable, destination, is_there, download, note_output, note_attached,
  prepare_file, put_in_place, remove, size_is, prepare_files, no_files, subfolder,
}
use sparstrowgen.Daemon.Files.Round.{sent_files, places}
use sparstrowgen.Daemon.Files.Attached.{told_of_all, AllHeld, prepare_files-sent}
use sparstrowgen.Daemon.Files.Placed.{MakesNew}
use sparstrowgen.Daemon.Web.{response}
use sparstrowgen.Daemon.Files.Prompt.{build_prompt}

abbrev host : Host
host = record {
  base = λ t. t;
  join = λ a b. a ++ b'/' ∷ b;
  ext = λ t. [];
  lower = λ t. t;
  makes_folder = λ t. true;
  request = λ id. response 200 (codes "200 OK") (codes "png") none;
  create_temp =
      λ dest disk. if is_some (lookup (codes "tmp") disk) then none else some (codes "tmp");
  writes = λ t. true;
  part = λ t. [];
  removes = λ path. true;
  renames = λ a b. true;
  chats = codes "chats";
}

host-MakesNew : MakesNew host
host-MakesNew dest tmp disk e = elim (Option-cases (lookup (codes "tmp") disk)) [
  | inl n ↦ subst (λ x. lookup x disk ≡ none) (some_eq (rw n at e)) n
  | inr (s, n) ↦ cc (rw n at e)
]
  where
    some_eq : {a b : Text} → some a ≡ some b → a ≡ b
    some_eq q = cc q

abbrev file_named : String → Bool → TurnFile
file_named name attached = record {
  id = name;
  origin = "upload";
  name = name;
  size = pos 3;
  sha256 = "";
  media_type = "image/png";
  attached = attached;
}

-- One earlier file, one that was sent, and one sent under a name that is none.
abbrev files : List TurnFile
files = file_named "old.png" false ∷ file_named "new.png" true ∷ file_named ".." true ∷ []

abbrev prepared : PreparedFiles
prepared = record no_files {
  attached =
      record {
        path = codes "/uploads/new.png";
        name = codes "new.png";
        media_type = "image/png";
        size = pos 3;
      }
      ∷ [];
}

prepared_ok : (prepare_files host files no_files []).0 ≡ some prepared
unfolding prepare_files prepare_file usable text_eq destination subfolder is_there lookup download
    put_in_place remove size_is insert note_output note_attached
prepared_ok = refl

abbrev new_path : Text
new_path = codes "/uploads/new.png"

abbrev old_path : Text
old_path = codes "/uploads/old.png"

apart : text_eq new_path old_path ≡ false
unfolding text_eq
apart = refl

new_ne_old : new_path ≢ old_path
new_ne_old q = cc (sym apart ∙ (text_eq_iff new_path old_path).1 q)

far_apart : Distinct (places host [] files)
unfolding places usable text_eq destination subfolder
far_apart = (λ e. elim e [ inl q ↦ new_ne_old q | inr q ↦ q ], ((λ e. e), tt))

prepare_files-sent_example :
    (prepared.attached ≡ [] ++ told_of_all host [] (sent_files host files))
    × AllHeld host [] (prepare_files host files no_files []).1 (sent_files host files)
prepare_files-sent_example =
    prepare_files-sent host host-MakesNew files no_files prepared [] far_apart prepared_ok

line_feed : codes "\n" ≡ 10 ∷ []
line_feed = refl

prompted :
    (build_prompt host (λ t. true) "codex" (codes "go") [] [] prepared).0
    ≡ codes "go\n\n1 picture(s) sent with this message are attached."
unfolding build_prompt
prompted = refl
