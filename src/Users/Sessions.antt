-- ===== src/Users/Sessions.antt =====
-- domain/users/authentication.py and session.py: login sessions. Times are in seconds. The hash of a
-- token is an argument, and so are a new row's id and token.
use signalscope.Shared.{
  ℕ, ◌+◌, ◌*◌, Bool, false, not, ◌&&◌, ◌||◌, Option, none, some, List, [], ◌∷◌, ◌==◌, leb, ltb, min,
  take, Result, ok, err, ◌>>=◌, ◌>>◌, raise_if, some_or_raise, is_some, if◌then◌else◌,
}
use signalscope.Shared.Text.{Text, text_eq}
use signalscope.Shared.Rows.{find, select, update, order_by, count}
use signalscope.Audit.{login, logout, logout_all, revoked_sessions, number, AuditLog, record_event}
use signalscope.Organizations.Model.{User}

pub record UserSession : Type 0 where
  pub id : ℕ
  pub user_id : ℕ
  pub token_hash : Text
  pub expires_at : ℕ
  pub last_seen_at : ℕ
  pub revoked_at : Option ℕ
  pub created_at : ℕ

pub record SessionLimits : Type 0 where
  pub session_days : ℕ
  pub session_max_age : ℕ
  pub session_idle : ℕ

pub record SessionTables : Type 0 where
  pub users : List User
  pub sessions : List UserSession
  pub audit : AuditLog

pub data SessionError : Type 0 where
  unauthenticated unique_violation session_not_found : SessionError

-- LAST_SEEN_INTERVAL
abbrev pub last_seen_interval : ℕ
last_seen_interval = 900

-- `effective_session_expiry`, and `effective_expiry`
unfoldable pub effective_expiry : SessionLimits → UserSession → ℕ
effective_expiry limits s =
    min s.expires_at
      (min (s.created_at + limits.session_max_age) (s.last_seen_at + limits.session_idle))

abbrev pub has_session_id : ℕ → UserSession → Bool
has_session_id i s = s.id == i

abbrev pub has_token_hash : Text → UserSession → Bool
has_token_hash h s = text_eq s.token_hash h

unfoldable pub revoked_at_time : ℕ → UserSession → UserSession
revoked_at_time now s = record s { revoked_at = some now }

unfoldable pub seen_at : ℕ → UserSession → UserSession
seen_at now s = record s { last_seen_at = now }

-- The row is refused at once.
unfoldable pub is_refused : ℕ → UserSession → User → Bool
is_refused now s u = is_some s.revoked_at || leb s.expires_at now || not u.is_active

-- The absolute or the idle limit is over: `now - created_at >= max_age`, and the same with the last
-- activity.
unfoldable pub is_over_limit : SessionLimits → ℕ → UserSession → Bool
is_over_limit limits now s =
    leb (s.created_at + limits.session_max_age) now
    || leb (s.last_seen_at + limits.session_idle) now

unfoldable pub revoke_row : ℕ → ℕ → SessionTables → SessionTables
revoke_row i now db = record db {
  sessions = update (has_session_id i) (revoked_at_time now) db.sessions;
}

-- The rows with the token's hash, joined to their users.
abbrev pub pair_with : UserSession → Option User → Option (UserSession × User)
pair_with s none = none
pair_with s (some u) = some (s, u)

abbrev pub with_user : List User → Option UserSession → Option (UserSession × User)
with_user users none = none
with_user users (some s) = pair_with s (find (λ (u : User). u.id == s.user_id) users)

module _ (limits : SessionLimits) where
  -- A session that is over a limit is revoked, and that is kept although an error follows.
  unfoldable pub resolve_found :
      ℕ
      → Option (UserSession × User)
      → SessionTables
      → SessionTables × Result SessionError (UserSession × User)
  resolve_found now none db = (db, err unauthenticated)
  resolve_found now (some (s, u)) db =
      if is_refused now s u
      then (db, err unauthenticated)
      else if is_over_limit limits now s
      then (revoke_row s.id now db, err unauthenticated)
      else if leb (s.last_seen_at + last_seen_interval) now
      then (
        record db { sessions = update (has_session_id s.id) (seen_at now) db.sessions },
        ok (seen_at now s, u),
      )
      else (db, ok (s, u))

  module _ (hash_token : Text → Text) where
    unfoldable pub resolve_session :
        Text → ℕ → SessionTables → SessionTables × Result SessionError (UserSession × User)
    resolve_session token now db =
        resolve_found now
          (with_user db.users (find (has_token_hash (hash_token token)) db.sessions)) db

    unfoldable pub new_session : ℕ → Text → ℕ → ℕ → UserSession
    new_session id token user_id now = record {
      id = id;
      user_id = user_id;
      token_hash = hash_token token;
      expires_at = now + limits.session_days * 86400;
      last_seen_at = now;
      revoked_at = none;
      created_at = now;
    }

    unfoldable pub create_session :
        ℕ → Text → User → ℕ → SessionTables → Result SessionError SessionTables
    create_session id token u now db = do
      raise_if
          (is_some (find (has_session_id id) db.sessions)
            || is_some (find (has_token_hash (hash_token token)) db.sessions))
          unique_violation
      ok (record db {
        sessions = new_session id token u.id now ∷ db.sessions;
        audit = record_event login (some u.id) "user_session" (some id) none [] db.audit;
      })

abbrev pub revoke_found : Option UserSession → ℕ → SessionTables → SessionTables
revoke_found none now db = db
revoke_found (some s) now db = if is_some s.revoked_at then db else record db {
  sessions = update (has_session_id s.id) (revoked_at_time now) db.sessions;
  audit = record_event logout (some s.user_id) "user_session" (some s.id) none [] db.audit;
}

unfoldable pub revoke_session : ℕ → ℕ → SessionTables → SessionTables
revoke_session session_id now db =
    revoke_found (find (has_session_id session_id) db.sessions) now db

unfoldable pub revoke_user_session : ℕ → ℕ → ℕ → SessionTables → Result SessionError SessionTables
revoke_user_session user session_id now db = do
  s ← some_or_raise (find (has_session_id session_id) db.sessions) session_not_found
  raise_if (not (s.user_id == user)) session_not_found
  ok (revoke_session session_id now db)

-- The newest first, at most 100.
unfoldable pub list_sessions : ℕ → SessionTables → List UserSession
list_sessions user db = take 100 (order_by newer (select (λ s. s.user_id == user) db.sessions))
  where
    newer : UserSession → UserSession → Bool
    newer a b = ltb b.created_at a.created_at || (a.created_at == b.created_at && ltb a.id b.id)

-- The active sessions of a user but the one to keep, if there is one.
abbrev pub is_kept : Option ℕ → ℕ → Bool
is_kept none i = false
is_kept (some k) i = i == k

abbrev pub is_active_of : ℕ → Option ℕ → UserSession → Bool
is_active_of user keep s =
    s.user_id == user && not (is_some s.revoked_at) && not (is_kept keep s.id)

-- `revoke_all_sessions`, and `revoke_other_sessions` with a session to keep: the number of rows is
-- the answer.
unfoldable pub revoke_sessions : ℕ → Option ℕ → ℕ → SessionTables → SessionTables × ℕ
revoke_sessions user keep now db =
    let revoked = count (is_active_of user keep) db.sessions in
    (
      record db {
        sessions = update (is_active_of user keep) (revoked_at_time now) db.sessions;
        audit =
            record_event logout_all (some user) "user" (some user) none
              ((revoked_sessions, number revoked) ∷ []) db.audit;
      },
      revoked,
    )
