-- ===== src/Restore/Paths.antt =====
-- `_safe_path` of domain/organizations/export_verification.py. An absolute Windows path that is not
-- an absolute one after its backslashes are turned round begins with a drive and a slash.
use signalscope.Shared.{
  ℕ, ◌≡◌, ap, ◌∙◌, ◌⊎◌, sym, refl, append_assoc, inl, inr, Bool, true, false, not, ◌&&◌, ◌||◌, List,
  [], ◌∷◌, ◌++◌, ◌==◌, arith, Bool-cases, if◌then◌else◌,
}
use signalscope.Shared.Text.{Text, codes, text_eq}

-- `path.replace("\\", "/")`
unfoldable pub with_slashes : Text → Text
with_slashes [] = []
with_slashes (c ∷ cs) = (if c == b'\\' then b'/' else c) ∷ with_slashes cs

abbrev pub is_slash : ℕ → Bool
is_slash c = c == b'/' || c == b'\\'

-- A drive and a root
unfoldable pub is_windows_absolute : Text → Bool
is_windows_absolute (d ∷ c ∷ r ∷ cs) = c == b':' && is_slash r
is_windows_absolute _ = false

unfoldable pub is_posix_absolute : Text → Bool
is_posix_absolute [] = false
is_posix_absolute (c ∷ cs) = c == b'/'

-- The components of a path, at its slashes
abbrev pub add_char : ℕ → List Text → List Text
add_char c [] = (c ∷ []) ∷ []
add_char c (part ∷ parts) = (c ∷ part) ∷ parts

unfoldable pub split_path : Text → List Text
split_path [] = [] ∷ []
split_path (c ∷ cs) = if c == b'/' then [] ∷ split_path cs else add_char c (split_path cs)

unfoldable pub has_dots : List Text → Bool
has_dots [] = false
has_dots (part ∷ parts) = text_eq part (codes "..") || has_dots parts

abbrev pub is_empty : Text → Bool
is_empty [] = true
is_empty (c ∷ cs) = false

unfoldable pub safe_path : Text → Bool
safe_path path =
    not (is_empty path)
    && (not (is_posix_absolute (with_slashes path))
        && (not (is_windows_absolute path) && not (has_dots (split_path (with_slashes path)))))

-- Where a path leads from a directory, which is a list of names, the innermost first: nothing and a
-- dot stay, two dots go up, and a name goes down.
abbrev parent : List Text → List Text
parent [] = []
parent (name ∷ names) = names

pub go_to : List Text → List Text → List Text
go_to directory [] = directory
go_to directory (part ∷ parts) =
    if is_empty part || text_eq part (codes ".")
    then go_to directory parts
    else if text_eq part (codes "..")
    then go_to (parent directory) parts
    else go_to (part ∷ directory) parts

stays :
    (parts directory : List Text)
    → has_dots parts ≡ false
    → (below : List Text) × (go_to directory parts ≡ below ++ directory)
unfolding has_dots go_to
stays [] directory h = ([], refl)
stays (part ∷ parts) directory h = elim (Bool-cases (is_empty part || text_eq part (codes "."))) [
  | inl y ↦ let (below, e) = stays parts directory (ground arith) in (below, rw y e)
  | inr n ↦
      let up : text_eq part (codes "..") ≡ false = ground arith in
      let (below, e) = stays parts (part ∷ directory) (ground arith) in
      (below ++ part ∷ [], rw (n, up) (e ∙ sym (append_assoc below (part ∷ []) directory)))
]

-- Where a path leads that is joined to a directory, as POSIX reads it: an absolute one starts at the root.
unfoldable pub posix_place : List Text → Text → List Text
posix_place directory path =
    if is_posix_absolute path then go_to [] (split_path path) else go_to directory (split_path path)

-- As Windows reads a path with slashes: a drive and a slash start at the root of the drive, and a drive
-- alone starts at the current directory that the drive has.
unfoldable pub windows_place : (ℕ → List Text) → ℕ × List Text → Text → ℕ × List Text
windows_place current (drive, directory) (d ∷ c ∷ rest) =
    if c == b':'
    then (d, posix_place (current d) rest)
    else (drive, posix_place directory (d ∷ c ∷ rest))
windows_place current (drive, directory) path = (drive, posix_place directory path)

-- The place is the directory or below it.
abbrev pub IsBelow : List Text → List Text → Type 0
IsBelow directory place = (below : List Text) × (place ≡ below ++ directory)

-- What follows a drive leads from the drive's current directory.
abbrev pub IsFromDrive : (ℕ → List Text) → Text → ℕ × List Text → Type 0
IsFromDrive current path place =
    (d : ℕ) × (rest : Text) × (path ≡ d ∷ b':' ∷ rest)
    × (place ≡ (d, go_to (current d) (split_path rest)))

posix_place-relative :
    (directory : List Text) (path : Text)
    → is_posix_absolute path ≡ false
    → posix_place directory path ≡ go_to directory (split_path path)
unfolding posix_place
posix_place-relative directory path relative = rw relative refl

posix_place-IsBelow :
    (directory : List Text) (path : Text)
    → is_posix_absolute path ≡ false
    → has_dots (split_path path) ≡ false
    → IsBelow directory (posix_place directory path)
unfolding posix_place
posix_place-IsBelow directory path relative h = rw relative (stays (split_path path) directory h)

-- A drive and a slash
abbrev is_rooted : Text → Bool
is_rooted (d ∷ c ∷ rest) = c == b':' && is_posix_absolute rest
is_rooted _ = false

with_slashes-rooted : (path : Text) → is_rooted (with_slashes path) ≡ is_windows_absolute path
unfolding with_slashes is_windows_absolute is_posix_absolute
with_slashes-rooted [] = refl
with_slashes-rooted (d ∷ []) = refl
with_slashes-rooted (d ∷ c ∷ []) = ground arith
with_slashes-rooted (d ∷ c ∷ r ∷ rest) = ground arith

windows_place-cases :
    (current : ℕ → List Text) (drive : ℕ) (directory : List Text) (path : Text)
    → is_posix_absolute path ≡ false
    → is_rooted path ≡ false
    → has_dots (split_path path) ≡ false
    → let place = windows_place current (drive, directory) path in
      ((place.0 ≡ drive) × IsBelow directory place.1) ⊎ IsFromDrive current path place
unfolding windows_place
windows_place-cases current drive directory [] a w h =
    inl (refl, posix_place-IsBelow directory [] a h)
windows_place-cases current drive directory (d ∷ []) a w h =
    inl (refl, posix_place-IsBelow directory (d ∷ []) a h)
windows_place-cases current drive directory (d ∷ c ∷ rest) a w h = elim (Bool-cases (c == b':')) [
  | inr n ↦ rw n (inl (refl, posix_place-IsBelow directory (d ∷ c ∷ rest) a h))
  | inl y ↦
      let same : c ≡ b':' = ground arith in
      let relative : is_posix_absolute rest ≡ false = ground arith in
      rw y (
        inr (
          d,
          rest,
          ap (λ x. d ∷ x ∷ rest) same,
          ap (λ (at : List Text). (d, at)) (posix_place-relative (current d) rest relative),
        ))
]

-- A path that is taken for safe, joined to any directory, leads to that directory or a place below it,
-- as POSIX reads it once its backslashes are slashes. As Windows reads it, it does so too on the same
-- drive, or else it begins with a drive and leads from the current directory of that drive: never from a
-- root.
pub safe_path_stays_inside :
    (current : ℕ → List Text) (drive : ℕ) (directory : List Text) (path : Text)
    → safe_path path ≡ true
    → let place = windows_place current (drive, directory) (with_slashes path) in
      IsBelow directory (posix_place directory (with_slashes path))
      × (((place.0 ≡ drive) × IsBelow directory place.1)
          ⊎ IsFromDrive current (with_slashes path) place)
unfolding safe_path
safe_path_stays_inside current drive directory path h =
    let relative : is_posix_absolute (with_slashes path) ≡ false = ground arith in
    let no_root : is_windows_absolute path ≡ false = ground arith in
    let no_dots : has_dots (split_path (with_slashes path)) ≡ false = ground arith in
    (
      posix_place-IsBelow directory (with_slashes path) relative no_dots,
      windows_place-cases current drive directory (with_slashes path) relative
          (with_slashes-rooted path ∙ no_root) no_dots,
    )
