-- ===== src/Agent/Fed/Context/Listed.antt =====
-- fed.go: FedContext over the list, the index and the marks answers as it would over a plain list of
-- pieces, and each piece is listed once, in its kind's group.
use sparstrowgen.Prelude.{
  ◌≡◌, refl, ap, subst, ◌∙◌, List, [], ◌∷◌, ◌++◌, String, none, Option-cases, inl, inr, Bool, true,
  false, string_eq, nat_eq, if◌then◌else◌, length,
}
use sparstrowgen.Prelude.Maps.{Map, insert}
use sparstrowgen.Text.{Text, codes, split, trim_space}
use sparstrowgen.Text.Equality.{text_eq_instance}
use sparstrowgen.Protocol.Turn.{ContextDocument}
use sparstrowgen.Agent.Protobuf.{Result, returned, not_protobuf, panicked}
use sparstrowgen.Agent.Fed.{
  instructions, file, skill, environment, other, Piece, Fed, key, put, put_piece, remove, drop,
  clear, kind_order,
}
use sparstrowgen.Agent.Fed.Pieces.{has_key, put_in, without}
use sparstrowgen.Agent.Fed.Board.{Holds, Keeps, empty-Holds, put_piece-Keeps, drop-Keeps}
use sparstrowgen.Agent.Fed.Groups.{
  only, except, grouped, sorted-live, count-live, has_name-live, clear-Keeps,
}
use sparstrowgen.Agent.Fed.Texts.{Decoder}
use sparstrowgen.Agent.Fed.Documents.{Ops, fed_ops, each}
use sparstrowgen.Agent.Fed.Documents.Reading.{
  Simulates, Follows, either-Follows, option-Follows, each-Follows, claude-Follows,
}
use sparstrowgen.Agent.Fed.Codex.{
  rooted, put_skills, tagged, codex_message, put_block, put_agents_md, session_meta, codex,
}
use sparstrowgen.Agent.Fed.Agy.{AgyPart, agy_parts, ◌>>=◌}
use sparstrowgen.Agent.Fed.Context.{
  put_part, agy, read_document, read_documents, missing, fed_context,
}

abbrev answered : {F : Type 0} → Ops F → Decoder → String → F → Result (List Piece × List Text)
answered o d provider f = returned (o.sorted f, missing o d provider f)

-- Both panic, or what they return is related.
data Alike {F G : Type 0} (R : F → G → Type 0) : Result F → Result G → Type 0 where
  both_return : {f : F} {g : G} → R f g → Alike R (returned f) (returned g)
  both_panic : Alike R panicked panicked
  both_fail : Alike R not_protobuf not_protobuf

module _ {F G : Type 0} (R : F → G → Type 0) (o : Ops F) (q : Ops G) (s : Simulates R o q)
    (d : Decoder) where
  put_skills-Follows :
      (lines : List Text) (roots : Map Text Text) (rest : List Text)
      → Follows R (put_skills o d lines roots rest) (put_skills q d lines roots rest)
  unfolding put_skills
  put_skills-Follows [] roots rest f g r = s.put instructions _ [] _ none f g r
  put_skills-Follows (line ∷ lines) roots rest f g r = elim (Option-cases (d.skill_root line)) [
    | inr ((root, at), e) ↦
        rw (e, put_skills)
          (put_skills-Follows lines (insert root at roots) (rest ++ line ∷ []) f g r)
    | inl e ↦ elim (Option-cases (d.codex_skill line)) [
      | inr ((name, source), e') ↦
          rw (e, put_skills)
            (rw (e', put_skills)
              (put_skills-Follows lines roots rest _ _
                (s.put skill name (rooted roots source) (trim_space line) none f g r)))
      | inl e' ↦
          rw (e, put_skills)
            (rw (e', put_skills) (put_skills-Follows lines roots (rest ++ line ∷ []) f g r))
    ]
  ]

  codex_message-Follows :
      (text : Text) → Follows R (codex_message o d text) (codex_message q d text)
  unfolding codex_message tagged
  codex_message-Follows text =
      option-Follows R (d.whole_tag text) (s.put instructions _ [] text none) _ _ (λ m.
        either-Follows R _
          (either-Follows R _ (put_skills-Follows (split 10 m.1) [] []) (
            either-Follows R _ (s.put file _ [] text none) (
              either-Follows R _ (s.put environment _ [] text none) (
                either-Follows R _ (s.put other _ [] text none)
                  (s.put instructions _ [] text none)))))
          (s.put instructions _ [] text none))

  codex-Follows :
      (kind : String) (body : Text) → Follows R (codex o d kind body) (codex q d kind body)
  unfolding codex session_meta
  codex-Follows kind body =
      either-Follows R _
        (option-Follows R (d.session_meta body) (λ f g r. r) _ _
          (λ m. either-Follows R _ (λ f g r. r) (s.put instructions _ [] m.0 none)))
        (either-Follows R _
          (option-Follows R (d.message body) (λ f g r. r) _ _
            (each-Follows R (put_block o d) (put_block q d)
              (λ t. either-Follows R _ (λ f g r. r) (codex_message-Follows t))))
          (either-Follows R _
            (option-Follows R (d.world_state body) (λ f g r. r) _ _
              (each-Follows R (put_agents_md o d) (put_agents_md q d)
                (λ (path, raw). s.put file _ path _ none)))
            (either-Follows R _
              (option-Follows R (d.turn_context body) (λ f g r. r) _ _
                (λ t. s.put environment _ [] _ none))
              (λ f g r. r))))

  agy-Alike : (body : Text) (f : F) (g : G) → R f g → Alike R (agy o d body f) (agy q d body g)
  unfolding agy
  agy-Alike body f g r = put_parts (agy_parts d body)
    where
      put_parts :
          (m : Result (List AgyPart))
          → Alike R
              (m >>= λ ps. returned (each (put_part o d) ps f))
              (m >>= λ ps. returned (each (put_part q d) ps g))
      put_parts not_protobuf = both_fail
      put_parts panicked = both_panic
      put_parts (returned ps) = both_return (
          each-Follows R (put_part o d) (put_part q d) (λ p. s.put p.kind p.name [] p.text p.tokens)
            ps f g r)

  either-Alike :
      (b : Bool) {m m' : Result F} {n n' : Result G}
      → Alike R m n
      → Alike R m' n'
      → Alike R (if b then m else m') (if b then n else n')
  either-Alike true p q = p
  either-Alike false p q = q

  read_document-Alike :
      (doc : ContextDocument) (f : F) (g : G)
      → R f g
      → Alike R (read_document o d doc f) (read_document q d doc g)
  unfolding read_document
  read_document-Alike doc f g r =
      either-Alike _ (both_return (claude-Follows R o q s d doc.body f g r)) (
        either-Alike _ (both_return (codex-Follows doc.kind doc.body f g r)) (
          either-Alike _ (agy-Alike doc.body f g r)
            (both_return (s.put other _ [] doc.body none f g r))))

  then-Alike :
      {m : Result F} {n : Result G} (h : F → Result F) (k : G → Result G)
      → Alike R m n
      → ((f : F) (g : G) → R f g → Alike R (h f) (k g))
      → Alike R (m >>= h) (n >>= k)
  then-Alike h k (both_return {f} {g} r) p = p f g r
  then-Alike h k both_panic p = both_panic
  then-Alike h k both_fail p = both_fail

  read_documents-Alike :
      (docs : List ContextDocument) (f : F) (g : G)
      → R f g
      → Alike R (read_documents o d docs f) (read_documents q d docs g)
  unfolding read_documents
  read_documents-Alike [] f g r = both_return r
  read_documents-Alike (doc ∷ docs) f g r =
      then-Alike (read_documents o d docs) (read_documents q d docs) (read_document-Alike doc f g r)
        (read_documents-Alike docs)

  missing-Follows :
      (provider : String) (f : F) (g : G) → R f g → missing o d provider f ≡ missing q d provider g
  unfolding missing
  missing-Follows provider f g r =
      rw (s.count skill f g r) (rw (s.has_name file (codes "user rules") f g r) refl)

  -- Stores that answer alike give the same answer.
  pub fed_context-Simulates :
      (provider : String) (docs : List ContextDocument)
      → fed_context o d provider docs ≡ fed_context q d provider docs
  unfolding fed_context
  fed_context-Simulates provider docs =
      answers (read_documents-Alike docs o.none_yet q.none_yet s.none_yet)
    where
      answers :
          {m : Result F} {n : Result G}
          → Alike R m n
          → (m >>= answered o d provider) ≡ (n >>= answered q d provider)
      answers (both_return {f} {g} r) =
          rw (s.sorted f g r) (rw (missing-Follows provider f g r) refl)
      answers both_panic = refl
      answers both_fail = refl

-- The plain list of pieces.
abbrev pub list_ops : Ops (List Piece)
list_ops = record {
  none_yet = [];
  put = λ kind name source text tokens. put_in (record {
    kind = kind;
    name = name;
    source = source;
    text = text;
    chars = length text;
    tokens = tokens;
  });
  remove = λ kind name. without (key kind name []);
  clear = except;
  count = λ kind l. length (only kind l);
  has_name = λ kind name. has_key (key kind name []);
  sorted = grouped kind_order;
}

abbrev ListHolds : Fed → List Piece → Type 0
ListHolds f l = Holds l f

keeps :
    (op : Fed → Fed) (spec : List Piece → List Piece) → Keeps op spec → Follows ListHolds op spec
keeps op spec k f l h = subst (λ m. Holds (spec m) (op f)) h.held (k f h.valid)

fed_ops-Simulates : Simulates ListHolds fed_ops list_ops
unfolding put remove
fed_ops-Simulates = record {
  none_yet = empty-Holds;
  put = λ kind name source text tokens f l h.
      keeps (put_piece _) (put_in _) (put_piece-Keeps _) f l h;
  remove = λ kind name f l h.
      keeps (drop (key kind name [])) (without (key kind name [])) (drop-Keeps (key kind name [])) f
        l h;
  clear = λ kind f l h. keeps (clear kind) (except kind) (clear-Keeps kind) f l h;
  count = λ kind f l h. count-live kind f ∙ ap (λ m. length (only kind m)) h.held;
  has_name =
      λ kind name f l h. has_name-live kind name f h.valid ∙ ap (has_key (key kind name [])) h.held;
  sorted = λ f l h. sorted-live f ∙ ap (grouped kind_order) h.held;
}

-- FedContext answers as if it kept its pieces in a plain list: a piece put under a key replaces the one
-- there or comes last, one removed is gone, a kind cleared is gone, and the answer is the list by kind.
pub fed_context-plain :
    (d : Decoder) (provider : String) (docs : List ContextDocument)
    → fed_context fed_ops d provider docs ≡ fed_context list_ops d provider docs
fed_context-plain = fed_context-Simulates ListHolds fed_ops list_ops fed_ops-Simulates
