-- ===== src/Daemon/Files/Placed.antt =====
-- files.go, download: what is in a path once a file has been downloaded.
use sparstrowgen.Prelude.{
  ℕ, ◌+◌, ◌<◌, ◌≡◌, ◌≢◌, ◌⊎◌, refl, sym, ap, ◌∙◌, inl, inr, String, Option, some, none, Bool, true,
  ◌&&◌, leb, string_eq, nat_eq, length, arith, Bool-cases, Option-cases,
}
use sparstrowgen.Prelude.Int.{ℤ, pos, negsuc}
use sparstrowgen.Prelude.Maps.{
  lookup, insert, delete, lookup-insert_self, lookup-insert_ne, lookup-delete, lookup-delete_ne,
}
use sparstrowgen.Text.{Text}
use sparstrowgen.Text.Equality.{text_eq_instance, text_eq_iff}
use sparstrowgen.Protocol.Files.{TurnFile}
use sparstrowgen.Daemon.Web.{Response, no_response, response, read_limited}
use sparstrowgen.Daemon.Files.{
  Host, Disk, max_file_bytes, size_is, is_none, destination, is_there, remove, put_in_place,
  after_request,
}

-- A temporary file is a new one.
abbrev pub MakesNew : Host → Type 0
MakesNew h =
    (dest tmp : Text) (disk : Disk) → h.create_temp dest disk ≡ some tmp → lookup tmp disk ≡ none

-- What the server answers a request for a file with: a status below 300, and a body that is read without
-- an error, to its end or up to one byte over the largest size of a file.
abbrev pub Answered : Host → String → Text → Type 0
Answered h id content =
    (code : ℕ) × (status : Text) × (body : Text) × (stopped : Option Text) × (h.request id
      ≡ response code status body stopped)
    × (code < 300)
    × (read_limited (max_file_bytes + 1) body stopped ≡ (content, none))

-- A file is in its place: with the size that the message names, or as the server answers it.
abbrev pub Held : Host → Text → Disk → TurnFile → Type 0
Held h folder disk f =
    (content : Text) × (lookup (destination h folder f) disk ≡ some content)
    × ((f.size ≡ pos (length content)) ⊎ Answered h f.id content)

-- What is in a path stays there.
abbrev pub Stays : Text → Disk → Disk → Type 0
Stays path disk disk' = (s : Text) → lookup path disk ≡ some s → lookup path disk' ≡ some s

size_is_lem : (z : ℤ) (content : Text) → size_is z content ≡ true → z ≡ pos (length content)
unfolding size_is
size_is_lem (pos n) content e = ap pos (sym ((nat_eq.beq_iff (length content) n).0 e))
size_is_lem (negsuc n) content e = cc e

pub is_there-Held :
    (h : Host) (folder : Text) (f : TurnFile) (disk : Disk)
    → is_there (destination h folder f) f disk ≡ true
    → Held h folder disk f
unfolding is_there
is_there-Held h folder f disk e = elim (Option-cases (lookup (destination h folder f) disk)) [
  | inl g ↦ cc (rw (g, is_there) at e)
  | inr (content, g) ↦ (content, g, inl (size_is_lem f.size content (rw (g, is_there) at e)))
]

remove-Stays :
    (h : Host) (gone path : Text) (disk : Disk) → gone ≢ path → Stays path disk (remove h gone disk)
unfolding remove
remove-Stays h gone path disk n s e =
    ground (arith, e, n, lookup-delete gone path disk, text_eq_iff gone path)

insert-Stays :
    (new path content : Text) (disk : Disk) → new ≢ path → Stays path disk (insert new content disk)
insert-Stays new path content disk n s e = lookup-insert_ne content disk n ∙ e

put_in_place-Stays :
    (h : Host) (dest path : Text) (got : Text) (stopped : Option Text) (disk : Disk)
    → MakesNew h
    → dest ≢ path
    → Stays path disk (put_in_place h dest (got, stopped) disk).0
unfolding put_in_place
put_in_place-Stays h dest path got stopped disk makes n s e =
    elim (Option-cases (h.create_temp dest disk)) [
      | inl t ↦ simp (t, put_in_place) e
      | inr (tmp, t) ↦
          let other : tmp ≢ path =
            λ same. cc (sym (makes dest tmp disk t) ∙ ap (λ x. lookup x disk) same ∙ e) in
          elim (Bool-cases (is_none stopped && h.writes got)) [
            | inr w ↦
                simp (t, w, put_in_place)
                  (remove-Stays h tmp path (insert tmp (h.part got) disk) other s
                    (insert-Stays tmp path (h.part got) disk other s e))
            | inl w ↦
                let cleared : Disk = remove h dest (insert tmp got disk) in
                let still =
                  remove-Stays h dest path (insert tmp got disk) n s
                    (insert-Stays tmp path got disk other s e) in
                elim (Bool-cases (h.renames tmp dest)) [
                  | inr r ↦ simp (t, w, r, put_in_place) still
                  | inl r ↦
                      simp (t, w, r, put_in_place)
                        (insert-Stays dest path got (delete tmp cleared) n s
                          (lookup-delete_ne cleared other ∙ still))
                ]
          ]
    ]

is_none_lem : (o : Option Text) (b : Bool) → is_none o && b ≡ true → o ≡ none
is_none_lem none b e = refl
is_none_lem (some err) b e = cc e

put_in_place-there :
    (h : Host) (dest : Text) (got : Text) (stopped : Option Text) (disk : Disk)
    → (put_in_place h dest (got, stopped) disk).1 ≡ true
    → (stopped ≡ none) × (lookup dest (put_in_place h dest (got, stopped) disk).0 ≡ some got)
unfolding put_in_place
put_in_place-there h dest got stopped disk e = elim (Option-cases (h.create_temp dest disk)) [
  | inl t ↦ cc (simp (t, put_in_place) at e)
  | inr (tmp, t) ↦ elim (Bool-cases (is_none stopped && h.writes got)) [
    | inr w ↦ cc (simp (t, w, put_in_place) at e)
    | inl w ↦ elim (Bool-cases (h.renames tmp dest)) [
      | inr r ↦ cc (simp (t, w, r, put_in_place) at e)
      | inl r ↦ (
        is_none_lem stopped (h.writes got) w,
        simp (t, w, r, put_in_place)
            (lookup-insert_self dest got (delete tmp (remove h dest (insert tmp got disk)))),
      )
    ]
  ]
]

pub download-Stays :
    (h : Host) (dest path : Text) (r : Response) (disk : Disk)
    → MakesNew h
    → dest ≢ path
    → Stays path disk (after_request h dest r disk).0
unfolding after_request
download-Stays h dest path (no_response err) disk makes n s e = e
download-Stays h dest path (response code status body stopped) disk makes n s e =
    elim (Bool-cases (leb 300 code)) [
      | inl c ↦ simp (c, after_request) e
      | inr c ↦
          let (got, stopped') = read_limited (max_file_bytes + 1) body stopped in
          simp (c, after_request) (put_in_place-Stays h dest path got stopped' disk makes n s e)
    ]

pub download-there :
    (h : Host) (id : String) (dest : Text) (r : Response) (disk : Disk)
    → h.request id ≡ r
    → (after_request h dest r disk).1 ≡ true
    → (content : Text) × (lookup dest (after_request h dest r disk).0 ≡ some content)
      × Answered h id content
unfolding after_request
download-there h id dest (no_response err) disk q e = cc e
download-there h id dest (response code status body stopped) disk q e =
    elim (Bool-cases (leb 300 code)) [
      | inl c ↦ cc (simp (c, after_request) at e)
      | inr c ↦
          let (got, stopped') = read_limited (max_file_bytes + 1) body stopped in
          let (whole, there) =
            put_in_place-there h dest got stopped' disk (simp (c, after_request) at e) in
          (
            got,
            simp (c, after_request) there,
            (code, status, body, stopped, q, ground (arith, c), ap (λ x. (got, x)) whole),
          )
    ]
