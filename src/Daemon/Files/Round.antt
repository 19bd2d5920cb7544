-- ===== src/Daemon/Files/Round.antt =====
-- files.go, prepare: a round of the loop over the files.
use sparstrowgen.Prelude.{
  ◌≡◌, ◌≢◌, refl, sym, ap, subst, ◌∙◌, inl, inr, List, [], ◌∷◌, ◌++◌, some, Bool, true, false, ◌&&◌,
  ◌==◌, string_eq, nat_eq, if◌then◌else◌, arith, Bool-cases,
}
use mathlib.Core.List.{append-nil}
use sparstrowgen.Text.{Text}
use sparstrowgen.Text.Equality.{text_eq_instance}
use sparstrowgen.Protocol.Files.{TurnFile}
use sparstrowgen.Daemon.Files.{
  Host, Disk, PreparedFile, PreparedFiles, usable, destination, is_there, download, prepared_file,
  note_output, note_attached, prepare_file,
}
use sparstrowgen.Daemon.Files.Placed.{
  MakesNew, Held, Stays, is_there-Held, download-Stays, download-there,
}

-- The files sent with the message whose names are file names, in the order sent.
unfoldable pub sent_files : Host → List TurnFile → List TurnFile
sent_files h [] = []
sent_files h (f ∷ fs) =
    let rest = sent_files h fs in if usable h f && f.attached then f ∷ rest else rest

-- Where the files with usable names belong.
unfoldable pub places : Host → Text → List TurnFile → List Text
places h folder [] = []
places h folder (f ∷ fs) =
    let rest = places h folder fs in if usable h f then destination h folder f ∷ rest else rest

-- What one round adds to the files that the agent is told of.
abbrev pub added : Host → Text → TurnFile → List PreparedFile
added h folder f = if usable h f && f.attached then prepared_file h folder f ∷ [] else []

-- A round that goes on.
pub record Goes (h : Host) (f : TurnFile) (p q : PreparedFiles) (disk disk' : Disk) : Type 0 where
  pub same_folder : q.folder ≡ p.folder
  pub told : q.attached ≡ p.attached ++ added h p.folder f
  pub kept :
      (path : Text) → (usable h f ≡ true → destination h p.folder f ≢ path) → Stays path disk disk'
  pub there : usable h f ≡ true → f.attached ≡ true → Held h p.folder disk' f

note_output-same :
    (h : Host) (f : TurnFile) (p : PreparedFiles)
    → ((note_output h f p).folder ≡ p.folder) × ((note_output h f p).attached ≡ p.attached)
unfolding note_output
note_output-same h f p = elim (Bool-cases (f.origin == "output")) [
  | inl e ↦ simp (e, note_output) (refl, refl)
  | inr e ↦ simp (e, note_output) (refl, refl)
]

note_attached-told :
    (h : Host) (f : TurnFile) (p : PreparedFiles)
    → usable h f ≡ true
    → ((note_attached h f p).folder ≡ p.folder)
      × ((note_attached h f p).attached ≡ p.attached ++ added h p.folder f)
unfolding note_attached
note_attached-told h f p u = elim (Bool-cases f.attached) [
  | inl e ↦ simp (e, u, note_attached) (refl, refl)
  | inr e ↦ simp (e, u, note_attached) (refl, sym (append-nil p.attached))
]

noted :
    (h : Host) (f : TurnFile) (p : PreparedFiles)
    → usable h f ≡ true
    → ((note_attached h f (note_output h f p)).folder ≡ p.folder)
      × ((note_attached h f (note_output h f p)).attached ≡ p.attached ++ added h p.folder f)
noted h f p u =
    let (dir, files) = note_output-same h f p in
    let (dir', files') = note_attached-told h f (note_output h f p) u in
    (
      dir' ∙ dir,
      files'
          ∙ ap (λ l. l ++ added h (note_output h f p).folder f) files
          ∙ ap (λ d. p.attached ++ added h d f) dir,
    )

-- What the rounds that go on have in common.
goes :
    (h : Host) (f : TurnFile) (p q : PreparedFiles) (disk disk' : Disk)
    → usable h f ≡ true
    → note_attached h f (note_output h f p) ≡ q
    → ((path : Text) → destination h p.folder f ≢ path → Stays path disk disk')
    → Held h p.folder disk' f
    → Goes h f p q disk disk'
goes h f p q disk disk' u e keeps there =
    let (dir, files) = noted h f p u in
    record {
      same_folder = subst (λ x. x.folder ≡ p.folder) e dir;
      told = subst (λ x. x.attached ≡ p.attached ++ added h p.folder f) e files;
      kept = λ path n. keeps path (n u);
      there = λ _ _. there;
    }

-- A round that tells of nothing.
untold :
    (h : Host) (f : TurnFile) (p q : PreparedFiles) (disk disk' : Disk)
    → usable h f && f.attached ≡ false
    → (q.folder ≡ p.folder) × (q.attached ≡ p.attached)
    → ((path : Text)
        → (usable h f ≡ true → destination h p.folder f ≢ path)
        → Stays path disk disk')
    → Goes h f p q disk disk'
untold h f p q disk disk' quiet (dir, files) keeps = record {
  same_folder = dir;
  told = rw (quiet, added) (files ∙ sym (append-nil p.attached));
  kept = keeps;
  there = λ u a. absurd (not_both (usable h f) f.attached quiet u a);
}
  where
    not_both : (a b : Bool) → a && b ≡ false → a ≡ true → b ≡ true → ⊥
    not_both a b e u v = ground (arith, e, u, v)

pub some_eq : {A : Type 0} {a b : A} → some a ≡ some b → a ≡ b
some_eq e = cc e

module _ (h : Host) (makes : MakesNew h) (f : TurnFile) (p q : PreparedFiles) (disk : Disk) where
  pub prepare_file-Goes :
      (prepare_file h f p disk).0 ≡ some q → Goes h f p q disk (prepare_file h f p disk).1
  unfolding prepare_file download
  prepare_file-Goes e =
      let dest = destination h p.folder f in
      let got = download h f.id dest disk in
      let keeps : (path : Text) → dest ≢ path → Stays path disk got.0 =
        λ path n. download-Stays h dest path (h.request f.id) disk makes n in
      elim (Bool-cases (usable h f)) [
        | inr u ↦
            let same : p ≡ q = some_eq (simp (u, prepare_file) at e) in
            simp (u, prepare_file)
              (untold h f p q disk disk (ground (arith, u))
                (subst (λ x. (x.folder ≡ p.folder) × (x.attached ≡ p.attached)) same (refl, refl))
                (λ path n s k. k))
        | inl u ↦ elim (Bool-cases (is_there dest f disk)) [
          | inl t ↦
              simp (u, t, prepare_file)
                (goes h f p q disk disk u (some_eq (simp (u, t, prepare_file) at e))
                  (λ path n s k. k) (is_there-Held h p.folder f disk t))
          | inr t ↦ elim (Bool-cases got.1) [
            | inl g ↦
                let (content, here, answered) =
                  download-there h f.id dest (h.request f.id) disk refl g in
                simp (u, t, g, prepare_file)
                  (goes h f p q disk got.0 u (some_eq (simp (u, t, g, prepare_file) at e)) keeps
                    (content, here, inr answered))
            | inr g ↦ elim (Bool-cases f.attached) [
              | inl a ↦ cc (simp (u, t, g, a, prepare_file) at e)
              | inr a ↦
                  let same : note_output h f p ≡ q =
                    some_eq (simp (u, t, g, a, prepare_file) at e) in
                  simp (u, t, g, a, prepare_file)
                    (untold h f p q disk got.0 (ground (arith, a))
                      (subst (λ x. (x.folder ≡ p.folder) × (x.attached ≡ p.attached)) same
                        (note_output-same h f p))
                      (λ path n. keeps path (n u)))
            ]
          ]
        ]
      ]
