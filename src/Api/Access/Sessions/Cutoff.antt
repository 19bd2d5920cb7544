-- ===== src/Api/Access/Sessions/Cutoff.antt =====
-- auth.go and accounts.go: who is cut off when an account's sessions end.
use sparstrowgen.Prelude.{
  ℕ, ◌+◌, ◌≤◌, ◌<◌, ◌≡◌, ◌↔◌, refl, inl, inr, String, [], ◌∷◌, some, true, false, ltb, arith,
  Option-cases, Bool-cases, ◌==◌, string_eq, nat_eq, ◌⊎◌,
}
use sparstrowgen.Prelude.Maps.{lookup, IsMap}
use sparstrowgen.Text.{Text}
use sparstrowgen.Hub.State.{Sys, Client}
use sparstrowgen.Hub.Browsers.{disconnect_user}
use sparstrowgen.Hub.Revocation.{disconnect_user-Revokes}
use sparstrowgen.Api.Access.{
  User, Outside, Desk, Answer, retry, busy, signed_in, signed_out, Started, started, link_unusable,
  email_taken, no_account, store_failed, hash_slots, min_password, byte_length,
}
use sparstrowgen.Api.Access.Register.{acquire_hash, reset_password, after_reset, password_reset}
use sparstrowgen.Api.Access.Sessions.{
  logout, logout_everywhere, password_checked, change_password, start_session,
}

-- No browser of the account is connected, and those of the others are as they were.
abbrev pub CutOff : String → Sys → Sys → Type 0
CutOff user s t =
    (c : ℕ) (x : Client)
    → (lookup c t.hub.clients ≡ some x)
      ↔ ((lookup c s.hub.clients ≡ some x) × ((x.user_id == user) ≡ false))

cut_off : (user : String) (s : Sys) → IsMap s.hub.clients → CutOff user s (disconnect_user user s).0
cut_off user s h = (disconnect_user-Revokes user s h).left

module _ {S : Type 0} (v : Outside S) where
  -- Signing out everywhere, of a live session, answers success only if the store has ended all of the
  -- account's sessions and every browser of it has been cut off.
  pub logout-CutOff :
      (cookie : String) (user : User) (d : Desk S)
      → IsMap d.sys.hub.clients
      → v.accounts.session_user cookie d.store ≡ some (some user)
      → (logout v true (some cookie) d).1 ≡ signed_out
      → ((n : ℕ) × ((v.accounts.end_all_sessions user.id d.store).1 ≡ some n))
        × CutOff user.id d.sys (logout v true (some cookie) d).0.sys
  unfolding logout logout_everywhere
  logout-CutOff cookie user d h e ok =
      elim (Option-cases (v.accounts.end_all_sessions user.id d.store).1) [
        | inl f ↦ cc (rw (f, logout_everywhere) at (rw (e, logout, logout_everywhere) at ok))
        | inr (n, f) ↦
            rw (e, logout_everywhere)
              (rw (f, logout_everywhere) ((n, refl), cut_off user.id d.sys h))
      ]

  -- A slot is taken and given back, or nothing happens.
  pub acquire_hash-slots :
      (rest : Desk S → Desk S × Answer) (d : Desk S)
      → let (d', a) = acquire_hash v rest d in
        ((d' ≡ d) × (a ≡ retry busy 503 1))
        ⊎ ((d' ≡ record (rest (record d { hashing = d.hashing + 1 })).0 { hashing = d.hashing })
            × (a ≡ (rest (record d { hashing = d.hashing + 1 })).1))
  unfolding acquire_hash
  acquire_hash-slots rest d = elim (Bool-cases (ltb d.hashing hash_slots)) [
    | inl e ↦ inr (rw (e, acquire_hash) refl, rw (e, acquire_hash) refl)
    | inr e ↦ inl (rw (e, acquire_hash) refl, rw (e, acquire_hash) refl)
  ]

  after_reset-CutOff :
      (d : Desk S) (r : S × Started) (email : Text) (token : String) (expires : ℕ)
      → IsMap d.sys.hub.clients
      → (after_reset v d r).1 ≡ signed_in email token expires
      → (user : User) × (r.1 ≡ started user token expires)
        × CutOff user.id d.sys (after_reset v d r).0.sys
  unfolding password_reset
  after_reset-CutOff d (store, started user t x) email token expires h ok =
      (user, cc ok, cut_off user.id d.sys h)
  after_reset-CutOff d (store, link_unusable) email token expires h ok = cc
  after_reset-CutOff d (store, email_taken) email token expires h ok = cc
  after_reset-CutOff d (store, no_account) email token expires h ok = cc
  after_reset-CutOff d (store, store_failed) email token expires h ok = cc

  started_sys :
      (user : User) (agent client : String) (d : Desk S) (s : Sys)
      → CutOff user.id s d.sys
      → CutOff user.id s (start_session v user agent client d).0.sys
  unfolding start_session
  started_sys user agent client d s cut =
      elim (Option-cases (v.accounts.start_session user.id agent client d.store).1) [
        | inl e ↦ rw (e, start_session) cut
        | inr (t, e) ↦ rw (e, start_session) cut
      ]

  -- A password is reset only by a call of the store that has set it, and then every browser of the
  -- account has been cut off and no slot is left taken.
  pub reset_password-CutOff :
      (agent client : String) (token password : Text) (d : Desk S) (email : Text) (session : String)
      (expires : ℕ)
      → IsMap d.sys.hub.clients
      → (reset_password v agent client (some (token, password)) d).1
        ≡ signed_in email session expires
      → let d' = (reset_password v agent client (some (token, password)) d).0 in
        (user : User) × ((v.accounts.reset_password token password agent client d.store).1
          ≡ started user session expires)
        × CutOff user.id d.sys d'.sys
        × (d'.hashing ≡ d.hashing)
  unfolding reset_password acquire_hash
  reset_password-CutOff agent client [] password d email session expires h ok = cc
  reset_password-CutOff agent client (c ∷ token) password d email session expires h ok =
      elim (Bool-cases (ltb (byte_length password) min_password)) [
        | inl e ↦ cc (rw (e, reset_password) at ok)
        | inr e ↦ elim (Bool-cases (ltb d.hashing hash_slots)) [
          | inr f ↦ cc (rw (f, acquire_hash) at (rw (e, reset_password) at ok))
          | inl f ↦
              let d₁ : Desk S = record d { hashing = d.hashing + 1 } in
              let (user, g, cut) =
                after_reset-CutOff d₁
                  (v.accounts.reset_password (c ∷ token) password agent client d.store) email
                  session expires h (rw (f, acquire_hash) at (rw (e, reset_password) at ok)) in
              rw (e, reset_password) (rw (f, acquire_hash) (user, g, cut, refl))
        ]
      ]

  -- After a change of password that the store has made, every browser of the account has been cut off,
  -- also where no new session could be started for this one.
  pub change_password-CutOff :
      (user : User) (agent client : String) (current next : Text) (d : Desk S)
      → IsMap d.sys.hub.clients
      → min_password ≤ byte_length next
      → d.hashing < hash_slots
      → (v.accounts.change_password user.id current next d.store).1 ≡ some true
      → let d' = (change_password v user agent client (some (current, next)) d).0 in
        CutOff user.id d.sys d'.sys × (d'.hashing ≡ d.hashing)
  unfolding change_password acquire_hash password_checked
  change_password-CutOff user agent client current next d h long free changed =
      let e : ltb (byte_length next) min_password ≡ false = ground arith in
      let f : ltb d.hashing hash_slots ≡ true = ground arith in
      rw (e, change_password)
        (rw (f, acquire_hash)
          (rw (changed, password_checked)
            (
              started_sys user agent client
                  (record d {
                    hashing = d.hashing + 1;
                    store = (v.accounts.change_password user.id current next d.store).0;
                    sys = (disconnect_user user.id d.sys).0;
                  })
                  d.sys (cut_off user.id d.sys h),
              refl,
            )))
