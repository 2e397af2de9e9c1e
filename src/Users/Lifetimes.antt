-- ===== src/Users/Lifetimes.antt =====
-- When a login session works, and what the operations on sessions do to a row of it
-- (domain/users/authentication.py).
use signalscope.Shared.{
  ℕ, ◌+◌, ◌≡◌, refl, inl, inr, Bool, false, not, ◌&&◌, ◌||◌, Option, none, some, List, [], ◌∷◌,
  arith, ◌==◌, leb, ltb, Result, ok, err, is_some, Bool-cases, Option-cases, is_raised,
}
use signalscope.Shared.Text.{Text, text_eq, text_eq→eq}
use signalscope.Shared.Rows.{find, update}
use signalscope.Shared.Rows.Laws.{find-update, if_fits}
use signalscope.Organizations.Model.{User}
use signalscope.Users.Sessions.{
  UserSession, SessionLimits, SessionTables, SessionError, effective_expiry, has_session_id,
  has_token_hash, revoked_at_time, seen_at, is_refused, is_over_limit, revoke_row, with_user,
  resolve_found, resolve_session, new_session, create_session, revoke_session, revoke_user_session,
  is_active_of, revoke_sessions, last_seen_interval,
}

abbrev pub is_returned : SessionTables × Result SessionError (UserSession × User) → Bool
is_returned (db, r) = not (is_raised r)

module _ (limits : SessionLimits) where
  -- A session that was found works exactly until the earliest of its stored expiry and the absolute
  -- and idle limits, while it is not revoked and its user is active.
  pub resolves_until_expiry :
      (now : ℕ) (s : UserSession) (u : User) (db : SessionTables)
      → is_returned (resolve_found limits now (some (s, u)) db)
        ≡ not (is_some s.revoked_at) && u.is_active && ltb now (effective_expiry limits s)
  unfolding resolve_found is_refused is_over_limit effective_expiry
  resolves_until_expiry now s u db = ground arith

  -- What the service does with sessions. A sign in draws an ID and a token.
  pub data SessionOp : Type 0 where
    sign_in : ℕ → Text → User → ℕ → SessionOp
    resolve : Text → ℕ → SessionOp
    sign_out : ℕ → ℕ → SessionOp
    sign_out_own : ℕ → ℕ → ℕ → SessionOp
    sign_out_all : ℕ → Option ℕ → ℕ → SessionOp

  abbrev pub or_before : SessionTables → Result SessionError SessionTables → SessionTables
  or_before db (ok db') = db'
  or_before db (err e) = db

  module _ (hash_token : Text → Text) where
    abbrev pub apply : SessionOp → SessionTables → SessionTables
    apply (sign_in id token u now) db =
        or_before db (create_session limits hash_token id token u now db)
    apply (resolve token now) db = (resolve_session limits hash_token token now db).0
    apply (sign_out i now) db = revoke_session i now db
    apply (sign_out_own user i now) db = or_before db (revoke_user_session user i now db)
    apply (sign_out_all user keep now) db = (revoke_sessions user keep now db).0

    unfoldable pub apply_all : List SessionOp → SessionTables → SessionTables
    apply_all [] db = db
    apply_all (op ∷ ops) db = apply_all ops (apply op db)

    module _ (P : UserSession → Type 0)
        (revoking : (now : ℕ) (s : UserSession) → P s → P (revoked_at_time now s))
        (seeing : (now : ℕ) (s : UserSession) → P s → P (seen_at now s)) where
      -- The first row with the token's hash has the property.
      abbrev pub Found : Text → List UserSession → Type 0
      Found token rows =
          (s : UserSession) × (find (has_token_hash (hash_token token)) rows ≡ some s) × P s

      Found-update :
          (token : Text) (q : UserSession → Bool) (f : UserSession → UserSession)
          (rows : List UserSession)
          → ((s : UserSession) → (f s).token_hash ≡ s.token_hash)
          → ((s : UserSession) → P s → P (f s))
          → Found token rows
          → Found token (update q f rows)
      Found-update token q f rows keeps stays (s, found, p) = (
        if_fits q f s,
        find-update (has_token_hash (hash_token token)) q f (λ r. rw (keeps r) refl) rows found,
        elim (Bool-cases (q s)) [ inl y ↦ rw y (stays s p) | inr n ↦ rw n p ],
      )

      Found-revoked :
          (token : Text) (q : UserSession → Bool) (now : ℕ) (rows : List UserSession)
          → Found token rows
          → Found token (update q (revoked_at_time now) rows)
      Found-revoked token q now rows =
          Found-update token q (revoked_at_time now) rows (λ s. unfold revoked_at_time in refl)
            (revoking now)

      Found-revoke_session :
          (token : Text) (i now : ℕ) (db : SessionTables)
          → Found token db.sessions
          → Found token (revoke_session i now db).sessions
      unfolding revoke_session
      Found-revoke_session token i now db h =
          elim (Option-cases (find (has_session_id i) db.sessions)) [
            | inl e ↦ rw (revoke_session, e) h
            | inr (s, e) ↦ elim (Bool-cases (is_some s.revoked_at)) [
              | inl y ↦ rw (revoke_session, e, y) h
              | inr n ↦
                  rw (revoke_session, e, n)
                    (Found-revoked token (has_session_id s.id) now db.sessions h)
            ]
          ]

      Found-resolve_found :
          (token : Text) (now : ℕ) (o : Option (UserSession × User)) (db : SessionTables)
          → Found token db.sessions
          → Found token (resolve_found limits now o db).0.sessions
      unfolding resolve_found revoke_row
      Found-resolve_found token now none db h = h
      Found-resolve_found token now (some (s, u)) db h = elim (Bool-cases (is_refused now s u)) [
        | inl y ↦ rw y h
        | inr n ↦ elim (Bool-cases (is_over_limit limits now s)) [
          | inl y ↦ rw (n, y) (Found-revoked token (has_session_id s.id) now db.sessions h)
          | inr m ↦ elim (Bool-cases (leb (s.last_seen_at + last_seen_interval) now)) [
            | inl y ↦
                rw (n, m, y)
                  (Found-update token (has_session_id s.id) (seen_at now) db.sessions
                    (λ r. unfold seen_at in refl) (seeing now) h)
            | inr l ↦ rw (n, m, l) h
          ]
        ]
      ]

      -- A new row has another hash, as hashes are unique.
      Found-create :
          (token : Text) (id : ℕ) (t : Text) (u : User) (now : ℕ) (db : SessionTables)
          → Found token db.sessions
          → Found token (or_before db (create_session limits hash_token id t u now db)).sessions
      unfolding create_session
      Found-create token id t u now db (s, found, p) =
          elim (Bool-cases (
            is_some (find (has_session_id id) db.sessions)
            || is_some (find (has_token_hash (hash_token t)) db.sessions))) [
              | inl y ↦ rw (create_session, y) (s, found, p)
              | inr n ↦ rw (create_session, n) (s, new_row (ground arith), p)
            ]
        where
          new_row :
              is_some (find (has_token_hash (hash_token t)) db.sessions) ≡ false
              → find
                  (has_token_hash (hash_token token))
                  (new_session limits hash_token id t u.id now ∷ db.sessions)
                ≡ some s
          new_row fresh =
              unfold find new_session in
              elim (Bool-cases (text_eq (hash_token t) (hash_token token))) [
                | inr m ↦ rw m found
                | inl y ↦
                    let same : hash_token t ≡ hash_token token =
                      text_eq→eq (hash_token t) (hash_token token) y in
                    absurd (let none_here = rw (same, found) at fresh in ground arith)
              ]

      apply-Found :
          (op : SessionOp) (token : Text) (db : SessionTables)
          → Found token db.sessions
          → Found token (apply op db).sessions
      apply-Found (sign_in id t u now) token db h = Found-create token id t u now db h
      apply-Found (resolve t now) token db h =
          unfold resolve_session in
          Found-resolve_found token now
            (with_user db.users (find (has_token_hash (hash_token t)) db.sessions)) db h
      apply-Found (sign_out i now) token db h = Found-revoke_session token i now db h
      apply-Found (sign_out_own user i now) token db h =
          unfold revoke_user_session in
          elim (Option-cases (find (has_session_id i) db.sessions)) [
            | inl e ↦ rw e h
            | inr (s, e) ↦ elim (Bool-cases (s.user_id == user)) [
              | inl y ↦ rw (e, y) (Found-revoke_session token i now db h)
              | inr n ↦ rw (e, n) h
            ]
          ]
      apply-Found (sign_out_all user keep now) token db h =
          unfold revoke_sessions in Found-revoked token (is_active_of user keep) now db.sessions h

      pub apply_all-Found :
          (ops : List SessionOp) (token : Text) (db : SessionTables)
          → Found token db.sessions
          → Found token (apply_all ops db).sessions
      unfolding apply_all
      apply_all-Found [] token db h = h
      apply_all-Found (op ∷ ops) token db h =
          apply_all-Found ops token (apply op db) (apply-Found op token db h)
