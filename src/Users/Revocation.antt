-- ===== src/Users/Revocation.antt =====
-- What follows for a token, whatever happens to the sessions later.
use signalscope.Shared.{
  ℕ, ◌+◌, ◌*◌, ◌<◌, ◌≡◌, refl, inl, inr, true, none, some, List, ◌∷◌, arith, ◌==◌, ok, err, is_some,
  Option-cases,
}
use signalscope.Shared.Text.{Text, text_eq_refl}
use signalscope.Shared.Rows.{find}
use signalscope.Shared.Rows.Laws.{find-update, if_fits}
use signalscope.Organizations.Model.{User}
use signalscope.Users.Sessions.{
  UserSession, SessionLimits, SessionTables, unauthenticated, effective_expiry, has_token_hash,
  revoked_at_time, seen_at, is_refused, resolve_found, resolve_session, new_session, create_session,
  is_active_of, revoke_sessions,
}
use signalscope.Users.Lifetimes.{
  is_returned, resolves_until_expiry, SessionOp, apply_all, apply_all-Found,
}

module _ (limits : SessionLimits) (hash_token : Text → Text) where
  abbrev pub IsRevoked : UserSession → Type 0
  IsRevoked s = is_some s.revoked_at ≡ true

  revoked_is_refused :
      (token : Text) (now : ℕ) (db : SessionTables) {s : UserSession}
      → find (has_token_hash (hash_token token)) db.sessions ≡ some s
      → IsRevoked s
      → resolve_session limits hash_token token now db ≡ (db, err unauthenticated)
  unfolding resolve_session
  revoked_is_refused token now db {s} found h =
      elim (Option-cases (find (λ (u : User). u.id == s.user_id) db.users)) [
        | inl e ↦ rw (found, e) (unfold resolve_found in refl)
        | inr (u, e) ↦ rw (found, e) (unfold resolve_found is_refused in rw h refl)
      ]

  -- After a user signed out everywhere, every token whose session was the user's is refused for good,
  -- whatever happens to the sessions afterwards.
  pub signed_out_everywhere :
      (user at : ℕ) (token : Text) (ops : List (SessionOp limits)) (now : ℕ) (db : SessionTables)
      (s : UserSession)
      → find (has_token_hash (hash_token token)) db.sessions ≡ some s
      → s.user_id ≡ user
      → let db' = apply_all limits hash_token ops (revoke_sessions user none at db).0 in
        resolve_session limits hash_token token now db' ≡ (db', err unauthenticated)
  signed_out_everywhere user at token ops now db s found own =
      let (r, there_still, h) =
        apply_all-Found limits hash_token IsRevoked (λ t u p. unfold revoked_at_time in refl)
          (λ t u p. unfold seen_at in p) ops token (revoke_sessions user none at db).0
          (unfold revoke_sessions in
            (
              if_fits (is_active_of user none) (revoked_at_time at) s,
              find-update (has_token_hash (hash_token token)) (is_active_of user none)
                  (revoked_at_time at) (λ r. unfold revoked_at_time in refl) db.sessions found,
              unfold revoked_at_time in ground arith,
            )) in
      revoked_is_refused token now
        (apply_all limits hash_token ops (revoke_sessions user none at db).0) there_still h

  -- The times that bound the life of a session are set when it is made.
  abbrev pub IsMadeAt : ℕ → UserSession → Type 0
  IsMadeAt start s = (s.created_at ≡ start) × (s.expires_at ≡ start + limits.session_days * 86400)

  returned_in_time :
      (start now : ℕ) (token : Text) (db : SessionTables) {s : UserSession}
      → find (has_token_hash (hash_token token)) db.sessions ≡ some s
      → IsMadeAt start s
      → is_returned (resolve_session limits hash_token token now db) ≡ true
      → (now < start + limits.session_max_age) × (now < start + limits.session_days * 86400)
  unfolding resolve_session
  returned_in_time start now token db {s} found (created, expires) h =
      elim (Option-cases (find (λ (u : User). u.id == s.user_id) db.users)) [
        | inl e ↦ absurd (unfold resolve_found in ground (arith, rw (found, e) at h))
        | inr (u, e) ↦
            let works : is_returned (resolve_found limits now (some (s, u)) db) ≡ true =
              rw (found, e) at h in
            let all = rw (resolves_until_expiry limits now s u db) at works in
            unfold effective_expiry in (ground (arith, all, created), ground (arith, all, expires))
      ]

  -- A token that a sign in gave out never works later than the absolute limit, or the stored expiry,
  -- counted from that sign in: no use of it, nor anything else that happens, extends that.
  pub use_never_extends :
      (id : ℕ) (token : Text) (u : User) (start : ℕ) (db : SessionTables) {db' : SessionTables}
      (ops : List (SessionOp limits)) (now : ℕ)
      → create_session limits hash_token id token u start db ≡ ok db'
      → is_returned
          (resolve_session limits hash_token token now (apply_all limits hash_token ops db'))
        ≡ true
      → (now < start + limits.session_max_age) × (now < start + limits.session_days * 86400)
  unfolding create_session
  use_never_extends id token u start db {db'} ops now made h =
      let (s, found, p) =
        apply_all-Found limits hash_token (IsMadeAt start) (λ t r q. unfold revoked_at_time in q)
          (λ t r q. unfold seen_at in q) ops token db'
          (
            new_session limits hash_token id token u.id start,
            first_row (ground arith),
            unfold new_session in (refl, refl),
          ) in
      returned_in_time start now token (apply_all limits hash_token ops db') found p h
    where
      first_row :
          db'.sessions ≡ new_session limits hash_token id token u.id start ∷ db.sessions
          → find (has_token_hash (hash_token token)) db'.sessions
            ≡ some (new_session limits hash_token id token u.id start)
      first_row e = rw e (unfold find new_session in rw (text_eq_refl (hash_token token)) refl)
