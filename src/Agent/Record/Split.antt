-- ===== src/Agent/Record/Split.antt =====
-- record.go, splitter: however the output is cut into pieces, its lines are recorded.
use sparstrowgen.Prelude.{
  ℕ, ◌+◌, ◌-◌, ◌≡◌, ◌≤◌, refl, sym, ap, ◌∙◌, String, List, [], ◌∷◌, ◌++◌, map, true, false, ◌||◌,
  ltb, leb, ◌==◌, nat_eq, if◌then◌else◌, length, take, drop, take-drop_sizes, take-append,
  drop-append, room_left, fits_take, arith, inl, inr, Bool-cases,
}
use mathlib.Core.List.{append_assoc, append-nil}
use sparstrowgen.Text.{Text}
use sparstrowgen.Daemon.Exchange.{Line}
use sparstrowgen.Agent.Record.{
  max_line, Splitter, new_splitter, trim_return, flush, add_chunk, write_from, write, end,
  write_all,
}

-- All three branches keep what there is room for, and count the rest.
add_chunk_lem :
    (chunk : Text) (s : Splitter)
    → let room = max_line - length s.buf in
      add_chunk chunk s
      ≡ record s { buf = s.buf ++ take room chunk; cut = s.cut + length (drop room chunk) }
unfolding add_chunk
add_chunk_lem chunk s =
    let room = max_line - length s.buf in
    elim (Bool-cases (leb (length chunk) room)) [
      | inl e ↦
          let h : length chunk ≤ room = ground (arith, e) in
          let (f, g) = fits_take room chunk h in
          let c : s.cut ≡ s.cut + length (drop room chunk) = omega (arith, g) in
          rw (e, add_chunk)
            (ap (λ z. record s { buf = s.buf ++ z }) (sym f)
              ∙ ap (λ z. record s { buf = s.buf ++ take room chunk; cut = z }) c)
      | inr e ↦ elim (Bool-cases (ltb 0 room)) [
        | inl f ↦ rw (e, f, add_chunk) refl
        | inr f ↦
            let none_left : room ≡ 0 = ground (arith, f) in
            rw (e, f, add_chunk)
              (ap (λ z. record s { buf = z; cut = s.cut + length chunk }) (sym (append-nil s.buf))
                ∙ ap
                    (λ k. record s {
                      buf = s.buf ++ take k chunk;
                      cut = s.cut + length (drop k chunk);
                    })
                    (sym none_left))
      ]
    ]

-- The line that the splitter is in the middle of.
record Holds (line : Text) (s : Splitter) : Type 0 where
  first : s.buf ≡ take max_line line
  rest : s.cut ≡ length (drop max_line line)

add_chunk-Holds :
    (line chunk : Text) (s : Splitter) → Holds line s → Holds (line ++ chunk) (add_chunk chunk s)
add_chunk-Holds line chunk s h =
    let e : max_line - length s.buf ≡ max_line - length line =
      ap (λ z. max_line - length z) h.first ∙ room_left max_line line in
    let eq = add_chunk_lem chunk s in
    record {
      first =
          ap (λ z. z.buf) eq
          ∙ ap (λ z. z ++ take (max_line - length s.buf) chunk) h.first
          ∙ ap (λ k. take max_line line ++ take k chunk) e
          ∙ sym (take-append max_line line chunk);
      rest =
          ap (λ z. z.cut) eq
          ∙ ap (λ z. z + length (drop (max_line - length s.buf) chunk)) h.rest
          ∙ ap (λ k. length (drop max_line line) + length (drop k chunk)) e
          ∙ sym (drop-append max_line line chunk);
    }

-- What the record has of a line, apart from when it came.
abbrev pub shape : Line → Text × ℕ
shape l = (l.text, l.cut)

abbrev pub shapes : List Line → List (Text × ℕ)
shapes ls = map shape ls

-- The record of a whole line, its newline left out.
unfoldable pub kept_of : Text → Text × ℕ
unfolding trim_return
kept_of line = (trim_return (take max_line line), length (drop max_line line))

-- The lines of an output that goes on after `line`; the last need not be ended.
abbrev unended : Text → List Text
unended [] = []
unended (c ∷ line) = (c ∷ line) ∷ []

unfoldable pub lines_from : Text → Text → List Text
lines_from [] line = unended line
lines_from (b ∷ p) line =
    let ended = lines_from p [] in
    let more = lines_from p (line ++ (b ∷ [])) in if b == 10 then line ∷ ended else more

unfoldable pub all_bytes : List (ℕ × Text) → Text
all_bytes [] = []
all_bytes ((now, p) ∷ ps) = p ++ all_bytes ps

map-append : (ls ks : List Line) → shapes (ls ++ ks) ≡ shapes ls ++ shapes ks
map-append [] ks = refl
map-append (l ∷ ls) ks = ap (λ z. shape l ∷ z) (map-append ls ks)

flush-shapes :
    (now : ℕ) (line : Text) (s : Splitter)
    → Holds line s
    → shapes (flush now s).emitted ≡ shapes s.emitted ++ (kept_of line ∷ [])
unfolding flush kept_of
flush-shapes now line s h =
    map-append s.emitted _
    ∙ ap (λ z. shapes s.emitted ++ ((trim_return z, s.cut) ∷ [])) h.first
    ∙ ap (λ z. shapes s.emitted ++ ((trim_return (take max_line line), z) ∷ [])) h.rest

nothing-Holds : (s : Splitter) (now : ℕ) → Holds [] (flush now s)
unfolding flush max_line
nothing-Holds s now = record { first = refl; rest = refl }

-- What is recorded in the end is given by what has been recorded, the line in the middle, and what is
-- still to come.
record Ends (line p : Text) (s s' : Splitter) (rest : Text) : Type 0 where
  middle : Text
  holds : Holds middle s'
  same :
      shapes s'.emitted ++ map kept_of (lines_from rest middle)
      ≡ shapes s.emitted ++ map kept_of (lines_from (p ++ rest) line)

write_from-Ends :
    (now : ℕ) (chunk p line : Text) (s : Splitter) (rest : Text)
    → Holds line s
    → Ends (line ++ chunk) p s (write_from now chunk p s) rest
unfolding write_from lines_from
write_from-Ends now chunk [] line s rest h = record {
  middle = line ++ chunk;
  holds = add_chunk-Holds line chunk s h;
  same =
      ap (λ z. shapes z.emitted ++ map kept_of (lines_from rest (line ++ chunk)))
        (add_chunk_lem chunk s);
}
write_from-Ends now chunk (b ∷ p) line s rest h = elim (Bool-cases (b == 10)) [
  | inl e ↦
      let s₁ : Splitter = add_chunk chunk s in
      let more : Ends [] p (flush now s₁) (write_from now [] p (flush now s₁)) rest =
        write_from-Ends now [] p [] (flush now s₁) rest (nothing-Holds s₁ now) in
      rw (e, write_from)
        (record {
          middle = more.middle;
          holds = more.holds;
          same =
              more.same
              ∙ ap (λ z. z ++ map kept_of (lines_from (p ++ rest) []))
                  (flush-shapes now (line ++ chunk) s₁ (add_chunk-Holds line chunk s h))
              ∙ append_assoc (shapes s₁.emitted) (kept_of (line ++ chunk) ∷ [])
                  (map kept_of (lines_from (p ++ rest) []))
              ∙ ap
                  (λ z.
                    shapes z.emitted
                    ++ (kept_of (line ++ chunk) ∷ map kept_of (lines_from (p ++ rest) [])))
                  (add_chunk_lem chunk s)
              ∙ rw (e, lines_from) refl;
        })
  | inr e ↦
      let more = write_from-Ends now (chunk ++ (b ∷ [])) p line s rest h in
      rw (e, write_from)
        (record {
          middle = more.middle;
          holds = more.holds;
          same =
              more.same
              ∙ ap (λ z. shapes s.emitted ++ map kept_of (lines_from (p ++ rest) z))
                  (sym (append_assoc line chunk (b ∷ [])))
              ∙ rw (e, lines_from) refl;
        })
]

write_all_lines :
    (ps : List (ℕ × Text)) (line : Text) (s : Splitter)
    → Holds line s
    → (m : Text) × Holds m (write_all ps s)
      × (shapes (write_all ps s).emitted ++ map kept_of (lines_from [] m)
          ≡ shapes s.emitted ++ map kept_of (lines_from (all_bytes ps) line))
unfolding write_all write all_bytes
write_all_lines [] line s h = (line, h, refl)
write_all_lines ((now, p) ∷ ps) line s h =
    let e = write_from-Ends now [] p line s (all_bytes ps) h in
    let (m, holds, same) = write_all_lines ps e.middle (write_from now [] p s) e.holds in
    (
      m,
      holds,
      same
          ∙ e.same
          ∙ ap (λ z. shapes s.emitted ++ map kept_of (lines_from (p ++ all_bytes ps) z))
              (append-nil line),
    )

end-shapes :
    (now : ℕ) (line : Text) (s : Splitter)
    → Holds line s
    → shapes (end now s).emitted ≡ shapes s.emitted ++ map kept_of (lines_from [] line)
unfolding end lines_from
end-shapes now [] s h =
    let a : length s.buf ≡ 0 = unfold max_line in ap length h.first in
    let b : s.cut ≡ 0 = unfold max_line in h.rest in
    let c : (ltb 0 (length s.buf) || ltb 0 s.cut) ≡ false = ground (arith, a, b) in
    rw (c, end) (sym (append-nil (shapes s.emitted)))
end-shapes now (x ∷ line) s h =
    let (a, d) = take-drop_sizes max_line (x ∷ line) in
    let b = ap length h.first in
    let r = h.rest in
    let c : (ltb 0 (length s.buf) || ltb 0 s.cut) ≡ true = ground (arith, a, b, r) in
    rw (c, end) (flush-shapes now (x ∷ line) s h)

new-Holds : (stream : String) → Holds [] (new_splitter stream)
unfolding new_splitter max_line
new-Holds stream = record { first = refl; rest = refl }

-- Whatever pieces an output arrives in, and whenever they do, what is recorded of it in the end are the
-- lines of all its bytes together, the last of them even if no newline ended it: of each line its first
-- 16 MB, without a carriage return at their end, and how many bytes were cut.
pub end-write_all :
    (stream : String) (ps : List (ℕ × Text)) (now : ℕ)
    → shapes (end now (write_all ps (new_splitter stream))).emitted
      ≡ map kept_of (lines_from (all_bytes ps) [])
unfolding new_splitter
end-write_all stream ps now =
    let (m, holds, same) = write_all_lines ps [] (new_splitter stream) (new-Holds stream) in
    end-shapes now m (write_all ps (new_splitter stream)) holds ∙ same
