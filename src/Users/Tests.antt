-- ===== src/Users/Tests.antt =====
-- The theorems on blocking, for three failures in a minute, on sessions and on a sign in.
use signalscope.Shared.{◌≡◌, refl, false, [], ◌∷◌, arith, leb}
use signalscope.Shared.Text.{Text, codes, text_eq}
use signalscope.Shared.Rows.{find, update}
use signalscope.Users.Throttle.{ThrottlePolicy, is_blocked}
use signalscope.Users.Blocking.{record_failures, blocked_iff_enough}
use signalscope.Organizations.Model.{User}
use signalscope.Shared.{true, some, none, List, ◌+◌, ok, err, ◌*◌, ◌<◌}
use signalscope.Users.Sessions.{
  SessionLimits, SessionTables, unauthenticated, has_token_hash, resolve_found, resolve_session,
  new_session, create_session, revoke_sessions, revoke_session, is_refused, is_over_limit, seen_at,
  revoked_at_time,
}
use signalscope.Users.Lifetimes.{is_returned, SessionOp, sign_in, resolve, sign_out, apply_all}
use signalscope.Users.Revocation.{signed_out_everywhere, use_never_extends}
use signalscope.Users.SignIn.{
  PasswordCheck, AccountTables, invalid_credentials, login_identifier, authenticate_password,
}
use signalscope.Users.Outcomes.{IsOutcome, sign_in_outcomes}

abbrev policy : ThrottlePolicy
policy = record { window = 60; max_failures = 3; block = 900 }

abbrev ada : Text
ada = codes "ada"

blocked_iff_enough_example :
    is_blocked ada 500 (record_failures policy ada (100 ∷ 110 ∷ 120 ∷ []) []) ≡ leb 3 3
blocked_iff_enough_example =
    blocked_iff_enough policy (ground arith) ada 100 (110 ∷ 120 ∷ []) 500 [] (unfold find in refl)
      (ground arith) (ground arith)

abbrev limits : SessionLimits
limits = record { session_days = 30; session_max_age = 604800; session_idle = 86400 }

abbrev person : User
person = record {
  id = 1;
  email = ada;
  normalized_email = ada;
  is_active = true;
  is_system_admin = false;
}

abbrev nobody_signed_in : SessionTables
nobody_signed_in = record { users = person ∷ []; sessions = []; audit = [] }

abbrev same_text : Text → Text
same_text t = t

made :
    (db' : SessionTables) × (create_session limits same_text 5
        (codes "t")
        person
        100
        nobody_signed_in
      ≡ ok db')
unfolding create_session find
made = (_, refl)

stored :
    find (has_token_hash (codes "t")) made.0.sessions
    ≡ some (new_session limits same_text 5 (codes "t") 1 100)
unfolding find text_eq new_session made
stored = refl

-- The session is used at 2000, and once more much later.
abbrev uses : List (SessionOp limits)
uses = resolve (codes "t") 2000 ∷ sign_in 6 (codes "other") person 2500 ∷ sign_out 6 2600 ∷ []

works :
    is_returned
      (resolve_session limits same_text (codes "t") 3000 (apply_all limits same_text uses made.0))
    ≡ true
unfolding apply_all resolve_session resolve_found create_session revoke_session is_refused
    is_over_limit seen_at revoked_at_time new_session find update text_eq made
works = refl

use_never_extends_example : (3000 < 100 + 604800) × (3000 < 100 + 30 * 86400)
use_never_extends_example =
    use_never_extends limits same_text 5 (codes "t") person 100 nobody_signed_in uses 3000 made.1
      works

signed_out_everywhere_example :
    let db' = apply_all limits same_text uses (revoke_sessions 1 none 500 made.0).0 in
    resolve_session limits same_text (codes "t") 3000 db' ≡ (db', err unauthenticated)
signed_out_everywhere_example =
    signed_out_everywhere limits same_text 1 500 (codes "t") uses 3000 made.0
      (new_session limits same_text 5 (codes "t") 1 100) stored (unfold new_session in refl)

abbrev exact : Text → Text → PasswordCheck
exact password hash = record { valid = text_eq password hash; new_hash = none }

abbrev accounts : AccountTables
accounts = record {
  users =
      record {
        id = 1;
        email = codes "ada@example.org";
        normalized_email = codes "ada@example.org";
        is_active = true;
        is_system_admin = false;
      }
      ∷ [];
  credentials = record { user_id = 1; password_hash = codes "sesame" } ∷ [];
  throttles = [];
  audit = [];
}

sign_in_outcomes_example :
    let r =
      authenticate_password same_text same_text same_text exact policy
        (codes "ada@example.org")
        (codes "sesame")
        5
        6
        accounts in
    (is_blocked (login_identifier same_text same_text same_text (codes "ada@example.org")) 5 []
        ≡ true
      → (r.1 ≡ err invalid_credentials) × (r.0.throttles ≡ []))
    × (is_blocked (login_identifier same_text same_text same_text (codes "ada@example.org")) 5 []
          ≡ false
        → IsOutcome same_text same_text same_text exact policy
            (codes "ada@example.org")
            (codes "sesame")
            6
            accounts
            r)
sign_in_outcomes_example =
    sign_in_outcomes same_text same_text same_text exact policy (codes "ada@example.org")
      (codes "sesame") 5 6 accounts
