-- ===== src/Agent/Record.antt =====
-- record.go, splitter: a CLI's output, as it arrives in pieces, cut into lines for the record. A piece
-- comes with the milliseconds since the start; what is handed to `emit` is the list `emitted`.
pub mod Split
use sparstrowgen.Prelude.{
  ℕ, ◌+◌, ◌-◌, ◌*◌, ◌^◌, String, List, [], ◌∷◌, ◌++◌, Bool, true, false, ◌&&◌, ◌||◌, not, ltb, leb,
  ◌==◌, nat_eq, if◌then◌else◌, length, take, drop,
}
use sparstrowgen.Text.{Text}
use sparstrowgen.Daemon.Exchange.{Line}

unfoldable pub max_line : ℕ
max_line = 16 * 2 ^ 20

pub record Splitter : Type 0 where
  pub stream : String
  pub buf : Text
  pub cut : ℕ
  pub emitted : List Line

unfoldable pub new_splitter : String → Splitter
new_splitter stream = record { stream = stream; buf = []; cut = 0; emitted = [] }

-- bytes.TrimSuffix(_, "\r")
unfoldable pub trim_return : Text → Text
trim_return [] = []
trim_return (b ∷ []) = if b == 13 then [] else b ∷ []
trim_return (b ∷ c ∷ s) = b ∷ trim_return (c ∷ s)

unfoldable pub flush : ℕ → Splitter → Splitter
unfolding trim_return
flush now s = record s {
  buf = [];
  cut = 0;
  emitted =
      s.emitted
      ++ (record { stream = s.stream; at_ms = now; text = trim_return s.buf; cut = s.cut } ∷ []);
}

-- A round of write's loop, up to the newline.
unfoldable pub add_chunk : Text → Splitter → Splitter
unfolding max_line
add_chunk chunk s =
    let room = max_line - length s.buf in
    if leb (length chunk) room
    then record s { buf = s.buf ++ chunk }
    else if ltb 0 room
    then record s { buf = s.buf ++ take room chunk; cut = s.cut + length (drop room chunk) }
    else record s { cut = s.cut + length chunk }

-- The loop, with the bytes of the chunk that it is looking for the end of.
unfoldable pub write_from : ℕ → Text → Text → Splitter → Splitter
unfolding add_chunk flush
write_from now chunk [] s = add_chunk chunk s
write_from now chunk (b ∷ p) s =
    let ended = write_from now [] p (flush now (add_chunk chunk s)) in
    let more = write_from now (chunk ++ (b ∷ [])) p s in if b == 10 then ended else more

unfoldable pub write : ℕ → Text → Splitter → Splitter
unfolding write_from
write now p s = write_from now [] p s

unfoldable pub end : ℕ → Splitter → Splitter
unfolding flush
end now s = if ltb 0 (length s.buf) || ltb 0 s.cut then flush now s else s

-- Pieces in the order of their arrival, and the end.
unfoldable pub write_all : List (ℕ × Text) → Splitter → Splitter
unfolding write
write_all [] s = s
write_all ((now, p) ∷ ps) s = write_all ps (write now p s)
