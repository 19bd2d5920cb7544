-- ===== src/Agent/Fed/Documents/Reading.antt =====
-- fed.go: claude's documents leave what they would leave in any other store of pieces whose operations
-- answer alike.
use sparstrowgen.Prelude.{
  ℕ, suc, ◌≡◌, List, [], ◌∷◌, Option, some, none, Bool, true, false, string_eq, if◌then◌else◌,
}
use sparstrowgen.Prelude.Int.{ℤ}
use sparstrowgen.Text.{Text, codes, split, join, trim_space}
use sparstrowgen.Agent.Parsed.{is_blank, blank_line}
use sparstrowgen.Agent.Fed.{
  Kind, instructions, file, skill, tool, deferred, server, agent, environment, other,
}
use sparstrowgen.Agent.Fed.Texts.{
  Decoder, Attachment, ClaudeFile, text_of, title, file_name, rendered_texts,
}
use sparstrowgen.Agent.Fed.Documents.{
  Ops, each, put_file, put_sections, put_tool, put_tools, snapshot, nested_memory, put_skill,
  skill_listing, put_servers, put_deferred, put_agents, attach, claude,
}

-- Two stores whose operations keep a relation, and whose answers it determines.
pub record Simulates {F G : Type 0} (R : F → G → Type 0) (o : Ops F) (q : Ops G) : Type 0 where
  pub none_yet : R o.none_yet q.none_yet
  pub put :
      (kind : Kind) (name source text : Text) (tokens : Option ℤ) (f : F) (g : G)
      → R f g
      → R (o.put kind name source text tokens f) (q.put kind name source text tokens g)
  pub remove :
      (kind : Kind) (name : Text) (f : F) (g : G)
      → R f g
      → R (o.remove kind name f) (q.remove kind name g)
  pub clear : (kind : Kind) (f : F) (g : G) → R f g → R (o.clear kind f) (q.clear kind g)
  pub count : (kind : Kind) (f : F) (g : G) → R f g → o.count kind f ≡ q.count kind g
  pub has_name :
      (kind : Kind) (name : Text) (f : F) (g : G)
      → R f g
      → o.has_name kind name f ≡ q.has_name kind name g
  pub sorted : (f : F) (g : G) → R f g → o.sorted f ≡ q.sorted g

module _ {F G : Type 0} (R : F → G → Type 0) where
  abbrev pub Follows : (F → F) → (G → G) → Type 0
  Follows h k = (f : F) (g : G) → R f g → R (h f) (k g)

  pub either-Follows :
      (b : Bool) {h h' : F → F} {k k' : G → G}
      → Follows h k
      → Follows h' k'
      → Follows (if b then h else h') (if b then k else k')
  either-Follows true p q = p
  either-Follows false p q = q

  pub option-Follows :
      {A : Type 0} (c : Option A) {h : F → F} {k : G → G}
      → Follows h k
      → (h' : A → F → F) (k' : A → G → G) → ((x : A) → Follows (h' x) (k' x))
      → Follows (elim c [ none ↦ h | some x ↦ h' x ]) (elim c [ none ↦ k | some x ↦ k' x ])
  option-Follows none p h' k' p' = p
  option-Follows (some x) p h' k' p' = p' x

  pub each-Follows {ℓ} :
      {A : Type ℓ} (h : A → F → F) (k : A → G → G)
      → ((x : A) → Follows (h x) (k x))
      → (xs : List A) → Follows (each h xs) (each k xs)
  each-Follows h k p [] f g r = r
  each-Follows h k p (x ∷ xs) f g r = each-Follows h k p xs (h x f) (k x g) (p x f g r)

  module _ (o : Ops F) (q : Ops G) (s : Simulates R o q) (d : Decoder) where
    put_file-Follows : (c : ClaudeFile) → Follows (put_file o d c) (put_file q d c)
    unfolding put_file
    put_file-Follows c = s.put file _ c.path c.content none

    put_sections-Follows :
        (i : ℕ) (raws : List Text) → Follows (put_sections o d i raws) (put_sections q d i raws)
    unfolding put_sections
    put_sections-Follows i [] f g r = r
    put_sections-Follows i (raw ∷ raws) f g r =
        rw (s.has_name instructions (title d (text_of d raw)) f g r) (
          put_sections-Follows (suc i) raws _ _
            (s.put instructions _ [] (text_of d raw) none f g r))

    put_tools-Follows : (ts : List Text) → Follows (put_tools o d ts) (put_tools q d ts)
    unfolding put_tools put_tool
    put_tools-Follows [] f g r = r
    put_tools-Follows (t ∷ ts) f g r =
        each-Follows (put_tool o d) (put_tool q d) (λ x. s.put tool _ [] _ none) (t ∷ ts) _ _
          (s.clear tool f g r)

    snapshot-Follows : (a : Attachment) → Follows (snapshot o d a) (snapshot q d a)
    unfolding snapshot
    snapshot-Follows a f g r = put_tools-Follows a.tools _ _ (
        put_sections-Follows 0 a.system_prompt _ _
          (opened-Follows (is_blank a.cli_prefix) (s.clear instructions f g r)))
      where
        opened-Follows :
            (b : Bool) {f : F} {g : G}
            → R f g
            → R
                (if b then f else o.put instructions (codes "opening line") [] a.cli_prefix none f)
                (if b then g else q.put instructions (codes "opening line") [] a.cli_prefix none g)
        opened-Follows true r = r
        opened-Follows false {f} {g} r = s.put instructions _ [] a.cli_prefix none f g r

    nested_memory-Follows :
        (a : Attachment) (shown : Text)
        → Follows (nested_memory o d a shown) (nested_memory q d a shown)
    unfolding nested_memory
    nested_memory-Follows a shown =
        let kept = s.put file (file_name a.path) a.path shown none in
        option-Follows (d.claude_file a.content) kept _ _
          (λ c. either-Follows (is_blank c.content) kept (put_file-Follows c))

    put_skill-Follows : (line : Text) → Follows (put_skill o d line) (put_skill q d line)
    unfolding put_skill
    put_skill-Follows line =
        option-Follows (d.claude_skill line) (λ f g r. r) _ _
          (λ name. s.put skill name [] (trim_space line) none)

    skill_listing-Follows : (a : Attachment) → Follows (skill_listing o d a) (skill_listing q d a)
    unfolding skill_listing
    skill_listing-Follows a f g r =
        each-Follows (put_skill o d) (put_skill q d) put_skill-Follows
          (split 10 (d.listing a.content)) _ _ (cleared-Follows a.is_initial)
      where
        cleared-Follows :
            (b : Bool) → R (if b then o.clear skill f else f) (if b then q.clear skill g else g)
        cleared-Follows true = s.clear skill f g r
        cleared-Follows false = r

    put_servers-Follows :
        (ns bs : List Text) → Follows (put_servers o d ns bs) (put_servers q d ns bs)
    unfolding put_servers
    put_servers-Follows [] bs f g r = r
    put_servers-Follows (n ∷ ns) [] f g r = r
    put_servers-Follows (n ∷ ns) (b ∷ bs) f g r =
        put_servers-Follows ns bs _ _ (s.put server n [] b none f g r)

    put_deferred-Follows :
        (ns ls : List Text) → Follows (put_deferred o d ns ls) (put_deferred q d ns ls)
    unfolding put_deferred
    put_deferred-Follows [] ls f g r = r
    put_deferred-Follows (n ∷ ns) [] f g r =
        put_deferred-Follows ns [] _ _ (s.put deferred n [] n none f g r)
    put_deferred-Follows (n ∷ ns) (l ∷ ls) f g r =
        put_deferred-Follows ns ls _ _
          (s.put deferred n [] (if is_blank l then n else l) none f g r)

    put_agents-Follows : (ns ls : List Text) → Follows (put_agents o d ns ls) (put_agents q d ns ls)
    unfolding put_agents
    put_agents-Follows [] ls f g r = r
    put_agents-Follows (n ∷ ns) [] f g r =
        put_agents-Follows ns [] _ _ (s.put agent n [] n none f g r)
    put_agents-Follows (n ∷ ns) (l ∷ ls) f g r =
        put_agents-Follows ns ls _ _ (s.put agent n [] l none f g r)

    removed-Follows :
        (kind : Kind) (ns : List Text) → Follows (each (o.remove kind) ns) (each (q.remove kind) ns)
    removed-Follows kind = each-Follows (o.remove kind) (q.remove kind) (s.remove kind)

    attach-Follows :
        (a : Attachment) (shown raw : Text)
        → Follows (attach o d a shown raw) (attach q d a shown raw)
    unfolding attach
    attach-Follows a shown raw = either-Follows _ (snapshot-Follows a) (
        either-Follows _ (each-Follows (put_file o d) (put_file q d) put_file-Follows a.files) (
          either-Follows _ (nested_memory-Follows a shown) (
            either-Follows _ (skill_listing-Follows a) (
              either-Follows _ (s.put skill _ [] shown none) (
                either-Follows _
                  (λ f g r.
                    removed-Follows server a.removed_names _ _
                      (put_servers-Follows a.added_names a.added_blocks f g r))
                  (either-Follows _
                    (λ f g r.
                      removed-Follows deferred a.removed_names _ _
                        (put_deferred-Follows a.added_names a.added_lines f g r))
                    (either-Follows _
                      (λ f g r.
                        removed-Follows agent a.removed_types _ _
                          (put_agents-Follows a.added_types a.added_lines f g r))
                      (either-Follows _ (s.put environment _ [] _ none) (
                        either-Follows _ (s.put other _ [] _ none)
                          (s.put other _ [] _ none))))))))))

    pub claude-Follows : (body : Text) → Follows (claude o d body) (claude q d body)
    unfolding claude
    claude-Follows body =
        option-Follows (d.claude_document body) (λ f g r. r) _ _
          (λ doc.
            option-Follows (d.attachment doc.0) (λ f g r. r) _ _
              (λ a. attach-Follows a (join blank_line (rendered_texts d doc.1)) doc.0))
