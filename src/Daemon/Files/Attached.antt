-- ===== src/Daemon/Files/Attached.antt =====
-- files.go, prepare: the files that the agent is told of are the ones that were sent, and are there.
use sparstrowgen.Prelude.{
  ◌≡◌, ◌≢◌, refl, sym, ap, subst, ◌∙◌, inl, inr, List, [], ◌∷◌, ◌++◌, map, some, true, ◌&&◌,
  string_eq, nat_eq, All, Elem, Distinct, Bool-cases, Option-cases,
}
use mathlib.Core.List.{append_assoc, append-nil}
use sparstrowgen.Text.{Text}
use sparstrowgen.Text.Equality.{text_eq_instance}
use sparstrowgen.Protocol.Files.{TurnFile}
use sparstrowgen.Daemon.Files.{
  Host, Disk, PreparedFile, PreparedFiles, usable, destination, prepared_file, prepare_file,
  prepare_files,
}
use sparstrowgen.Daemon.Files.Placed.{MakesNew, Held, Stays}
use sparstrowgen.Daemon.Files.Round.{sent_files, places, added, some_eq, prepare_file-Goes}

-- What the agent is told of some files.
abbrev pub told_of_all : Host → Text → List TurnFile → List PreparedFile
told_of_all h folder fs = map (prepared_file h folder) fs

sent_files-step :
    (h : Host) (dir : Text) (f : TurnFile) (fs : List TurnFile)
    → told_of_all h dir (sent_files h (f ∷ fs))
      ≡ added h dir f ++ told_of_all h dir (sent_files h fs)
unfolding sent_files
sent_files-step h dir f fs = elim (Bool-cases (usable h f && f.attached)) [
  | inl e ↦ rw (e, sent_files, added) refl
  | inr e ↦ rw (e, sent_files, added) refl
]

abbrev pub AllHeld : Host → Text → Disk → List TurnFile → Type 0
AllHeld h folder disk = All (Held h folder disk)

AllHeld-step :
    (h : Host) (dir : Text) (f : TurnFile) (fs : List TurnFile) (disk : Disk)
    → (usable h f ≡ true → f.attached ≡ true → Held h dir disk f)
    → AllHeld h dir disk (sent_files h fs)
    → AllHeld h dir disk (sent_files h (f ∷ fs))
unfolding sent_files
AllHeld-step h dir f fs disk there rest = elim (Bool-cases (usable h f)) [
  | inr u ↦ rw (u, sent_files) rest
  | inl u ↦ elim (Bool-cases f.attached) [
    | inr a ↦ simp (u, a, sent_files) rest
    | inl a ↦ simp (u, a, sent_files) (there u a, rest)
  ]
]

Elem-places_head :
    (h : Host) (dir path : Text) (f : TurnFile) (fs : List TurnFile)
    → ¬ Elem path (places h dir (f ∷ fs))
    → usable h f ≡ true
    → destination h dir f ≢ path
unfolding places
Elem-places_head h dir path f fs n u same = n (rw (u, places) (inl same))

Elem-places_tail :
    (h : Host) (dir path : Text) (f : TurnFile) (fs : List TurnFile)
    → ¬ Elem path (places h dir (f ∷ fs))
    → ¬ Elem path (places h dir fs)
unfolding places
Elem-places_tail h dir path f fs n x = elim (Bool-cases (usable h f)) [
  | inl u ↦ n (rw (u, places) (inr x))
  | inr u ↦ n (rw (u, places) x)
]

Distinct-places :
    (h : Host) (dir : Text) (f : TurnFile) (fs : List TurnFile)
    → Distinct (places h dir (f ∷ fs))
    → Distinct (places h dir fs)
unfolding places
Distinct-places h dir f fs d = elim (Bool-cases (usable h f)) [
  | inl u ↦ (rw (u, places) at d).1
  | inr u ↦ rw (u, places) at d
]

alone :
    (h : Host) (dir : Text) (f : TurnFile) (fs : List TurnFile)
    → Distinct (places h dir (f ∷ fs))
    → usable h f ≡ true
    → ¬ Elem (destination h dir f) (places h dir fs)
unfolding places
alone h dir f fs d u = (rw (u, places) at d).0

module _ (h : Host) (makes : MakesNew h) where
  prepare_files-keeps :
      (fs : List TurnFile) (p q : PreparedFiles) (disk : Disk) (path : Text)
      → (prepare_files h fs p disk).0 ≡ some q
      → ¬ Elem path (places h p.folder fs)
      → Stays path disk (prepare_files h fs p disk).1
  unfolding prepare_files
  prepare_files-keeps [] p q disk path e n s there = there
  prepare_files-keeps (f ∷ fs) p q disk path e n s there =
      elim (Option-cases (prepare_file h f p disk).0) [
        | inl g ↦ cc (simp (g, prepare_files) at e)
        | inr (p', g) ↦
            let now = prepare_file-Goes h makes f p p' disk g in
            let away =
              subst (λ d. ¬ Elem path (places h d fs)) (sym now.same_folder)
                (Elem-places_tail h p.folder path f fs n) in
            simp (g, prepare_files)
              (prepare_files-keeps fs p' q (prepare_file h f p disk).1 path
                (simp (g, prepare_files) at e) away s
                (now.kept path (Elem-places_head h p.folder path f fs n) s there))
      ]

  -- If preparing a turn's files does not fail, the agent is told of exactly those files sent with the
  -- message whose names are file names, in the order sent. Each of them is in its place on this
  -- computer's disk: with the size that the message names, or as the server answered when it was asked
  -- for it. The files with such names have to belong in different places, and a temporary file has to be
  -- a new one.
  pub prepare_files-sent :
      (fs : List TurnFile) (p q : PreparedFiles) (disk : Disk)
      → Distinct (places h p.folder fs)
      → (prepare_files h fs p disk).0 ≡ some q
      → (q.attached ≡ p.attached ++ told_of_all h p.folder (sent_files h fs))
        × AllHeld h p.folder (prepare_files h fs p disk).1 (sent_files h fs)
  unfolding prepare_files
  prepare_files-sent [] p q disk d e =
      let same : p ≡ q = some_eq e in
      (
        unfold sent_files in
            subst (λ x. x.attached ≡ p.attached ++ []) same (sym (append-nil p.attached)),
        unfold sent_files in tt,
      )
  prepare_files-sent (f ∷ fs) p q disk d e = elim (Option-cases (prepare_file h f p disk).0) [
    | inl g ↦ cc (simp (g, prepare_files) at e)
    | inr (p', g) ↦
        let disk' = (prepare_file h f p disk).1 in
        let now = prepare_file-Goes h makes f p p' disk g in
        let e' : (prepare_files h fs p' disk').0 ≡ some q = simp (g, prepare_files) at e in
        let d' =
          subst (λ x. Distinct (places h x fs)) (sym now.same_folder)
            (Distinct-places h p.folder f fs d) in
        let (told, held) = prepare_files-sent fs p' q disk' d' e' in
        let dir = ap (λ x. told_of_all h x (sent_files h fs)) now.same_folder in
        let stays : usable h f ≡ true
            → f.attached ≡ true
            → Held h p.folder (prepare_files h fs p' disk').1 f =
          λ u a.
            let (content, here, why) = now.there u a in
            let away =
              subst (λ x. ¬ Elem (destination h p.folder f) (places h x fs)) (sym now.same_folder)
                (alone h p.folder f fs d u) in
            (content, prepare_files-keeps fs p' q disk' _ e' away content here, why) in
        simp (g, prepare_files)
          (
            told
                ∙ ap (λ l. l ++ told_of_all h p'.folder (sent_files h fs)) now.told
                ∙ append_assoc p.attached (added h p.folder f)
                    (told_of_all h p'.folder (sent_files h fs))
                ∙ ap (λ l. p.attached ++ (added h p.folder f ++ l)) dir
                ∙ ap (λ l. p.attached ++ l) (sym (sent_files-step h p.folder f fs)),
            AllHeld-step h p.folder f fs (prepare_files h fs p' disk').1 stays (
                subst (λ x. AllHeld h x (prepare_files h fs p' disk').1 (sent_files h fs))
                  now.same_folder held),
          )
  ]
