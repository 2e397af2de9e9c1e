-- ===== src/Users/Outcomes.antt =====
-- The outcomes of a sign in (domain/users/authentication.py).
use signalscope.Shared.{
  ℕ, suc, ◌≡◌, refl, inl, inr, ◌⊎◌, true, false, Option, none, some, length, Result, ok, err,
  String, Bool-cases, Option-cases,
}
use signalscope.Shared.Text.{Text, text_eq→eq}
use signalscope.Shared.Rows.{find}
use signalscope.Shared.Rows.Laws.{find-In}
use signalscope.Organizations.Model.{User}
use signalscope.Audit.{record_event}
use signalscope.Users.Email.{EmailError, normalize_email}
use signalscope.Users.Throttle.{ThrottlePolicy, is_blocked, record_failure, clear}
use signalscope.Users.SignIn.{
  Credential, PasswordCheck, AccountTables, SignInError, invalid_credentials, record_login_failure,
  has_email, credential_of, with_credential, login_identifier, fail_sign_in, check_row, check_email,
  authenticate_password,
}

module _ (nfkc casefold : Text → Text) (sha256 : Text → Text) (verify : Text → Text → PasswordCheck)
    (policy : ThrottlePolicy) where
  -- The user is active, has the email, and the password fits a credential of the user.
  abbrev pub IsProved : Text → Text → AccountTables → User → Type 0
  IsProved email password db u =
      (u.is_active ≡ true)
      × (normalize_email nfkc casefold email ≡ ok u.normalized_email)
      × (c : Credential) × (find (credential_of u) db.credentials ≡ some c)
      × ((verify password c.password_hash).valid ≡ true)

  -- A refusal counts a failure for the identifier, and writes one event.
  abbrev pub IsCounted : Text → ℕ → AccountTables → AccountTables × Result SignInError User → Type 0
  IsCounted identifier now db r =
      (r.1 ≡ err invalid_credentials)
      × (r.0.throttles ≡ record_failure policy identifier now db.throttles)
      × (length r.0.audit ≡ suc (length db.audit))

  -- What a sign in that is not blocked comes to.
  abbrev pub IsOutcome :
      Text → Text → ℕ → AccountTables → AccountTables × Result SignInError User → Type 0
  IsOutcome email password now db r =
      IsCounted (login_identifier nfkc casefold sha256 email) now db r
      ⊎ ((u : User) × (r.1 ≡ ok u)
          × IsProved email password db u
          × (r.0.throttles ≡ clear (login_identifier nfkc casefold sha256 email) db.throttles))

  fail-IsCounted :
      (identifier : Text) (now : ℕ) (why : String) (user_id : Option ℕ) (db : AccountTables)
      → IsCounted identifier now db
          (fail_sign_in nfkc casefold sha256 verify policy identifier now why user_id db)
  unfolding fail_sign_in record_login_failure record_event
  fail-IsCounted identifier now why user_id db = (refl, refl, refl)

  check_row-IsOutcome :
      (email password : Text) (now : ℕ) (db : AccountTables) (u : User) (c : Credential)
      → normalize_email nfkc casefold email ≡ ok u.normalized_email
      → find (credential_of u) db.credentials ≡ some c
      → IsOutcome email password now db (
          check_row nfkc casefold sha256 verify policy
            (login_identifier nfkc casefold sha256 email)
            password
            now
            (some (u, c))
            db)
  unfolding check_row
  check_row-IsOutcome email password now db u c e f =
      let i = login_identifier nfkc casefold sha256 email in
      elim (Bool-cases (verify password c.password_hash).valid) [
        | inr n ↦ rw n (inl (fail-IsCounted i now "invalid_credentials" (some u.id) db))
        | inl y ↦ elim (Bool-cases u.is_active) [
          | inr m ↦ rw (y, m) (inl (fail-IsCounted i now "inactive_user" (some u.id) db))
          | inl z ↦ simp (y, z) (inr (u, refl, (z, e, c, f, y), refl))
        ]
      ]

  looked_up-IsOutcome :
      (email password normalized : Text) (now : ℕ) (db : AccountTables)
      → normalize_email nfkc casefold email ≡ ok normalized
      → IsOutcome email password now db (
          check_row nfkc casefold sha256 verify policy
            (login_identifier nfkc casefold sha256 email)
            password
            now
            (with_credential db.credentials (find (has_email normalized) db.users))
            db)
  looked_up-IsOutcome email password normalized now db e =
      let i = login_identifier nfkc casefold sha256 email in
      elim (Option-cases (find (has_email normalized) db.users)) [
        | inl f ↦
            rw f (unfold check_row in inl (fail-IsCounted i now "invalid_credentials" none db))
        | inr (u, f) ↦ elim (Option-cases (find (credential_of u) db.credentials)) [
          | inl g ↦
              rw (f, g)
                (unfold check_row in inl (fail-IsCounted i now "invalid_credentials" none db))
          | inr (c, g) ↦
              let (fits, _) = find-In (has_email normalized) db.users f in
              let same = text_eq→eq u.normalized_email normalized fits in
              rw (f, g) (check_row-IsOutcome email password now db u c (rw same e) g)
        ]
      ]

  -- A blocked identifier is refused whatever the password, and no failure is counted. Otherwise either
  -- the sign in is refused, which counts one failure and writes one event, or it returns an active
  -- user whose email is the normalized one and whose stored hash the password fits, and clears the
  -- failures. There is one error for all refusals.
  pub sign_in_outcomes :
      (email password : Text) (now later : ℕ) (db : AccountTables)
      → let r =
          authenticate_password nfkc casefold sha256 verify policy email password now later db in
        (is_blocked (login_identifier nfkc casefold sha256 email) now db.throttles ≡ true
          → (r.1 ≡ err invalid_credentials) × (r.0.throttles ≡ db.throttles))
        × (is_blocked (login_identifier nfkc casefold sha256 email) now db.throttles ≡ false
            → IsOutcome email password later db r)
  unfolding authenticate_password
  sign_in_outcomes email password now later db = (
    (λ y. rw y (refl, unfold record_login_failure in refl)),
    (λ n. rw n (by_email (normalize_email nfkc casefold email) refl)),
  )
    where
      by_email :
          (r : Result EmailError Text)
          → normalize_email nfkc casefold email ≡ r
          → IsOutcome email password later db (
              check_email nfkc casefold sha256 verify policy
                (login_identifier nfkc casefold sha256 email)
                password
                later
                r
                db)
      by_email (err x) e = inl (
          fail-IsCounted (login_identifier nfkc casefold sha256 email) later "invalid_credentials"
            none db)
      by_email (ok normalized) e = looked_up-IsOutcome email password normalized later db e
