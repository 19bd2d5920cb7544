-- ===== src/Agent/Command/Answered.antt =====
-- agy.go: no turn of agy's is a blank success, and a catalogue that was listed once is there for good.
use sparstrowgen.Prelude.{
  ℕ, ◌≡◌, List, [], ◌∷◌, Option, none, Bool, false, inl, inr, Bool-cases, Option-cases, arith,
}
use sparstrowgen.Text.{Text}
use sparstrowgen.Protocol.{Model}
use sparstrowgen.Agent.Parsed.{Parsed, is_blank}
use sparstrowgen.Agent.Agy.{AgyLine, parse_agy}
use sparstrowgen.Agent.Command.{
  result_of, agy_result, Catalog, CatalogCall, puts, gets, no_models, put, get, run_catalog,
}

-- Whatever agy printed and however it exited: unless the turn was cancelled, a result without an error
-- has a text.
pub agy_result_answers :
    (ls : List (Option AgyLine)) (executor_error : Option Text) (timed_out : Bool)
    (wait_err : Option Text)
    → (agy_result (parse_agy ls).0 executor_error timed_out false wait_err).err ≡ none
    → is_blank (agy_result (parse_agy ls).0 executor_error timed_out false wait_err).text ≡ false
unfolding agy_result result_of
agy_result_answers ls x timed_out wait_err h = answered (parse_agy ls).0 h
  where
    answered :
        (p : Parsed)
        → (agy_result p x timed_out false wait_err).err ≡ none
        → is_blank (agy_result p x timed_out false wait_err).text ≡ false
    answered p e = elim (Option-cases p.err) [
      | inr (err, f) ↦ absurd (ground (arith, e, f))
      | inl f ↦ elim (Bool-cases (is_blank p.text)) [
        | inr g ↦ g
        | inl g ↦ absurd (ground (arith, e, f, g))
      ]
    ]

put_keeps :
    (now : ℕ) (ms : List Model) (c : Catalog)
    → no_models c.models ≡ false
    → no_models (put now ms c).models ≡ false
unfolding put
put_keeps now ms c h = ground (arith, h)

get_keeps :
    (now : ℕ) (ms : List Model) (c : Catalog)
    → no_models c.models ≡ false
    → no_models (get now ms c).0.models ≡ false
unfolding get put
get_keeps now ms c h = ground (arith, h)

-- Once agy's models have been listed, no failed listing and no turn that asks makes the catalogue empty.
pub run_catalog_keeps :
    (calls : List CatalogCall) (c : Catalog)
    → no_models c.models ≡ false
    → no_models (run_catalog calls c).models ≡ false
unfolding run_catalog
run_catalog_keeps [] c h = h
run_catalog_keeps (puts now ms ∷ calls) c h =
    run_catalog_keeps calls (put now ms c) (put_keeps now ms c h)
run_catalog_keeps (gets now ms ∷ calls) c h =
    run_catalog_keeps calls (get now ms c).0 (get_keeps now ms c h)
