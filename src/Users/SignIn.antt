-- ===== src/Users/SignIn.antt =====
-- domain/users/authentication.py: authenticate_password, with login_identifier of
-- domain/users/login_throttle.py. The tables of Unicode, SHA-256 and the check of a password against
-- a hash are arguments.
use signalscope.Shared.{
  ℕ, Bool, not, Option, none, some, List, [], ◌∷◌, ◌==◌, String, Result, ok, err, if◌then◌else◌,
}
use signalscope.Shared.Text.{Text, text_eq, strip}
use signalscope.Shared.Rows.{find, update}
use signalscope.Audit.{login_failed, reason, text, AuditLog, record_event}
use signalscope.Organizations.Model.{User}
use signalscope.Users.Email.{EmailError, normalize_email}
use signalscope.Users.Throttle.{Throttle, ThrottlePolicy, is_blocked, record_failure, clear}

pub record Credential : Type 0 where
  pub user_id : ℕ
  pub password_hash : Text

-- What a check of a password says: whether it fits, and a new hash where the stored one is of old
-- settings.
pub record PasswordCheck : Type 0 where
  pub valid : Bool
  pub new_hash : Option Text

pub record AccountTables : Type 0 where
  pub users : List User
  pub credentials : List Credential
  pub throttles : List Throttle
  pub audit : AuditLog

pub data SignInError : Type 0 where
  invalid_credentials : SignInError

-- `_record_login_failure`
unfoldable pub record_login_failure : String → Option ℕ → AccountTables → AccountTables
record_login_failure why user_id db = record db {
  audit =
      record_event login_failed none "authentication" user_id none ((reason, text why) ∷ [])
        db.audit;
}

abbrev pub has_email : Text → User → Bool
has_email email u = text_eq u.normalized_email email

abbrev pub credential_of : User → Credential → Bool
credential_of u c = c.user_id == u.id

abbrev pub pair_with : User → Option Credential → Option (User × Credential)
pair_with u none = none
pair_with u (some c) = some (u, c)

abbrev pub with_credential : List Credential → Option User → Option (User × Credential)
with_credential credentials none = none
with_credential credentials (some u) = pair_with u (find (credential_of u) credentials)

unfoldable pub set_hash : Text → Credential → Credential
set_hash h c = record c { password_hash = h }

abbrev pub rehashed : User → Option Text → List Credential → List Credential
rehashed u none credentials = credentials
rehashed u (some h) credentials = update (credential_of u) (set_hash h) credentials

module _ (nfkc casefold : Text → Text) (sha256 : Text → Text) where
  abbrev pub identified : Text → Result EmailError Text → Text
  identified email (ok value) = value
  identified email (err e) = casefold (strip (nfkc email))

  unfoldable pub login_identifier : Text → Text
  login_identifier email = sha256 (identified email (normalize_email nfkc casefold email))

  module _ (verify : Text → Text → PasswordCheck) (policy : ThrottlePolicy) where
    -- A failure is counted for the identifier and audited.
    unfoldable pub fail_sign_in :
        Text → ℕ → String → Option ℕ → AccountTables → AccountTables × Result SignInError User
    fail_sign_in identifier now why user_id db = (
      record_login_failure why user_id
          (record db { throttles = record_failure policy identifier now db.throttles }),
      err invalid_credentials,
    )

    -- The row was found, or not.
    unfoldable pub check_row :
        Text
        → Text
        → ℕ
        → Option (User × Credential)
        → AccountTables
        → AccountTables × Result SignInError User
    check_row identifier password now none db =
        fail_sign_in identifier now "invalid_credentials" none db
    check_row identifier password now (some (u, c)) db =
        let check = verify password c.password_hash in
        if not check.valid
        then fail_sign_in identifier now "invalid_credentials" (some u.id) db
        else if not u.is_active
        then fail_sign_in identifier now "inactive_user" (some u.id) db
        else (
          record db {
            credentials = rehashed u check.new_hash db.credentials;
            throttles = clear identifier db.throttles;
          },
          ok u,
        )

    abbrev pub check_email :
        Text
        → Text
        → ℕ
        → Result EmailError Text
        → AccountTables
        → AccountTables × Result SignInError User
    check_email identifier password now (err e) db =
        fail_sign_in identifier now "invalid_credentials" none db
    check_email identifier password now (ok normalized) db =
        check_row identifier password now
          (with_credential db.credentials (find (has_email normalized) db.users)) db

    -- The clock is read for the block and again for the failure.
    unfoldable pub authenticate_password :
        Text → Text → ℕ → ℕ → AccountTables → AccountTables × Result SignInError User
    authenticate_password email password now later db =
        let identifier = login_identifier email in
        if is_blocked identifier now db.throttles
        then (record_login_failure "invalid_credentials" none db, err invalid_credentials)
        else check_email identifier password later (normalize_email nfkc casefold email) db
