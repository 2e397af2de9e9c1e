-- ===== src/Users/Email.antt =====
-- domain/users/email.py. Unicode normalization and case folding are tables of the Unicode standard,
-- which the functions take as arguments.
use signalscope.Shared.{
  ℕ, Bool, true, false, not, ◌||◌, Option, none, some, [], ◌∷◌, ◌==◌, leb, if◌then◌else◌, Result,
  ok, err, length,
}
use signalscope.Shared.Text.{Text, is_space, strip}

pub data EmailError : Type 0 where
  invalid_email : EmailError

abbrev pub email_max_length : ℕ
email_max_length = 254

-- `c in text`
unfoldable pub has_char : ℕ → Text → Bool
has_char c [] = false
has_char c (d ∷ t) = d == c || has_char c t

unfoldable pub has_space : Text → Bool
has_space [] = false
has_space (d ∷ t) = is_space d || has_space t

-- `text.rpartition("@")`: what stands before and after the last one, if there is one.
unfoldable pub rpartition : ℕ → Text → Option (Text × Text)
rpartition c [] = none
rpartition c (d ∷ t) = elim (rpartition c t) [
  | some (before, after) ↦ some (d ∷ before, after)
  | none ↦ if d == c then some ([], t) else none
]

-- `text.lstrip(".")`, and `rstrip`
unfoldable pub lstrip_char : ℕ → Text → Text
lstrip_char c [] = []
lstrip_char c (d ∷ t) = if d == c then lstrip_char c t else d ∷ t

unfoldable pub rstrip_char : ℕ → Text → Text
rstrip_char c [] = []
rstrip_char c (d ∷ t) = elim (rstrip_char c t) [
  | [] ↦ if d == c then [] else d ∷ []
  | e ∷ r ↦ d ∷ e ∷ r
]

abbrev pub is_empty : Text → Bool
is_empty [] = true
is_empty (c ∷ t) = false

-- The tests on the parts and on the whole address.
unfoldable pub is_bad_address : Text → Text → Text → Bool
is_bad_address normalized before after =
    is_empty before
    || is_empty after
    || has_char b'@' before
    || not (has_char b'.' (rstrip_char b'.' (lstrip_char b'.' after)))
    || has_space normalized
    || not (leb (length normalized) email_max_length)

unfoldable pub check_address : Text → Option (Text × Text) → Result EmailError Text
check_address normalized none = err invalid_email
check_address normalized (some (before, after)) =
    if is_bad_address normalized before after then err invalid_email else ok normalized

module _ (nfkc casefold : Text → Text) where
  unfoldable pub normalize_email : Text → Result EmailError Text
  normalize_email email =
      let normalized = casefold (strip (nfkc email)) in
      check_address normalized (rpartition b'@' normalized)
