-- ===== src/Daemon/Serve/Pairing.antt =====
-- main.go, serve, and endpoints.go: a pairing that lands during an attempt is not lost.
use sparstrowgen.Prelude.{
  ℕ, String, ◌≡◌, ◌≢◌, ◌⊎◌, refl, sym, ap, ◌∙◌, Option, some, none, Bool, true, false, ◌==◌,
  string_eq, inl, inr, Bool-cases, eq_iff, ◌&&◌, if◌then◌else◌,
}
use sparstrowgen.Daemon.Serve.{
  Files, CredentialKind, pending_credential, paired_credential, shared_token, no_credential,
  promote_pending, forget_pending, forget_paired, Outcome, approve, forget, save, serve_round,
}

-- The pairing that was saved last.
abbrev pub last_saved : Option String → Files → String
last_saved none f = f.pending
last_saved (some pairing) f = pairing

promote_either :
    (token : String) (f : Files)
    → ((promote_pending token f ≡ f) ⊎ (f.pending ≡ token))
      × (((promote_pending token f).credential ≡ f.credential)
          ⊎ ((promote_pending token f).credential ≡ token))
unfolding promote_pending
promote_either token f = elim (Bool-cases (f.pending == token)) [
  | inl e ↦ (inr ((eq_iff _ _).0 e), rw (e, promote_pending) (inr refl))
  | inr e ↦ (rw (e, promote_pending) (inl refl), rw (e, promote_pending) (inl refl))
]

approve_either :
    (kind : CredentialKind) (token : String) (b : Bool) (f : Files)
    → ((approve kind token b f ≡ f) ⊎ (f.pending ≡ token))
      × (((approve kind token b f).credential ≡ f.credential)
          ⊎ ((approve kind token b f).credential ≡ token))
approve_either pending_credential token true f = promote_either token f
approve_either pending_credential token false f = (inl refl, inl refl)
approve_either paired_credential token b f = (inl refl, inl refl)
approve_either shared_token token b f = (inl refl, inl refl)
approve_either no_credential token b f = (inl refl, inl refl)

saved_pending :
    (kind : CredentialKind) (token : String) (b : Bool) (saved : Option String) (f : Files)
    → last_saved saved f ≢ token
    → (save saved (approve kind token b f)).pending ≡ last_saved saved f
saved_pending kind token b none f n = elim (approve_either kind token b f).0 [
  | inl e ↦ ap (λ z. z.pending) e
  | inr e ↦ absurd (n e)
]
saved_pending kind token b (some pairing) f n = refl

saved_credential : (saved : Option String) (f : Files) → (save saved f).credential ≡ f.credential
saved_credential none f = refl
saved_credential (some pairing) f = refl

forget_keeps_pending :
    (kind : CredentialKind) (token : String) (f : Files)
    → f.pending ≢ token
    → (forget kind token f).pending ≡ f.pending
forget_keeps_pending pending_credential token f n =
    unfold forget_pending in
    elim (Bool-cases (f.pending == token)) [
      | inl e ↦ absurd (n ((eq_iff _ _).0 e))
      | inr e ↦ rw e refl
    ]
forget_keeps_pending paired_credential token f n =
    unfold forget_paired in
    elim (Bool-cases (f.credential == token)) [ inl e ↦ rw e refl | inr e ↦ rw e refl ]
forget_keeps_pending shared_token token f n = refl
forget_keeps_pending no_credential token f n = refl

forget_keeps_other :
    (kind : CredentialKind) (token : String) (f : Files)
    → f.credential ≢ token
    → (forget kind token f).credential ≡ f.credential
forget_keeps_other pending_credential token f n =
    unfold forget_pending in
    elim (Bool-cases (f.pending == token)) [ inl e ↦ rw e refl | inr e ↦ rw e refl ]
forget_keeps_other paired_credential token f n =
    unfold forget_paired in
    elim (Bool-cases (f.credential == token)) [
      | inl e ↦ absurd (n ((eq_iff _ _).0 e))
      | inr e ↦ rw e refl
    ]
forget_keeps_other shared_token token f n = refl
forget_keeps_other no_credential token f n = refl

-- Whether a round's own credential is approved: it is the pending one, the server has let the daemon in
-- with it, and no other pairing has been saved in the meantime.
abbrev pub is_approved : CredentialKind → String → Bool → Files → Bool
is_approved pending_credential token connected f = connected && f.pending == token
is_approved paired_credential token connected f = false
is_approved shared_token token connected f = false
is_approved no_credential token connected f = false

approve-credential :
    (kind : CredentialKind) (token : String) (b : Bool) (f : Files)
    → (approve kind token b f).credential
      ≡ (if is_approved kind token b f then token else f.credential)
unfolding promote_pending
approve-credential pending_credential token false f = refl
approve-credential pending_credential token true f = elim (Bool-cases (f.pending == token)) [
  | inl e ↦ rw e refl
  | inr e ↦ rw e refl
]
approve-credential paired_credential token b f = refl
approve-credential shared_token token b f = refl
approve-credential no_credential token b f = refl

-- Approved and refused in one round: the approved credential is kept.
forget_keeps_approved :
    (kind : CredentialKind) (token : String) (b : Bool) (saved : Option String) (f : Files)
    → f.credential ≢ token
    → (forget kind token (save saved (approve kind token b f))).credential
      ≡ (approve kind token b f).credential
forget_keeps_approved pending_credential token b saved f n =
    let same = saved_credential saved (approve pending_credential token b f) in
    unfold forget_pending in
    elim (Bool-cases ((save saved (approve pending_credential token b f)).pending == token)) [
      | inl e ↦ rw e same
      | inr e ↦ rw e same
    ]
forget_keeps_approved paired_credential token b saved f n =
    let same = saved_credential saved f in
    forget_keeps_other paired_credential token (save saved f) (λ q. n (sym same ∙ q)) ∙ same
forget_keeps_approved shared_token token b saved f n = saved_credential saved f
forget_keeps_approved no_credential token b saved f n = saved_credential saved f

-- A pairing that another copy saves while an attempt with another credential is on its way stays to be
-- dialled with, whatever comes of the attempt. A saved credential other than the attempt's own is
-- replaced by the attempt's own exactly when that one was pending, the server let the daemon in with it,
-- and it was still the pending one; in every other case it stays as it was.
pub serve_round_keeps :
    (token : String) (kind : CredentialKind) (o : Outcome) (attempt : ℕ) (once : Bool)
    (saved : Option String) (f : Files)
    → last_saved saved f ≢ token
    → f.credential ≢ token
    → let g = (serve_round token kind o attempt once saved f).0 in
      (g.pending ≡ last_saved saved f)
      × (g.credential ≡ (if is_approved kind token o.connected f then token else f.credential))
unfolding serve_round
serve_round_keeps token kind o attempt once saved f n m =
    let f' : Files = save saved (approve kind token o.connected f) in
    let pending : f'.pending ≡ last_saved saved f =
      saved_pending kind token o.connected saved f n in
    let other : f'.pending ≢ token = λ e. n (sym pending ∙ e) in
    let approved = approve-credential kind token o.connected f in
    elim (Bool-cases o.disconnected) [
      | inl d ↦
          rw (d, serve_round)
            (
              forget_keeps_pending kind token f' other ∙ pending,
              forget_keeps_approved kind token o.connected saved f m ∙ approved,
            )
      | inr d ↦
          rw (d, serve_round)
            (pending, saved_credential saved (approve kind token o.connected f) ∙ approved)
    ]
