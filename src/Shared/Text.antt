-- ===== src/Shared/Text.antt =====
-- Texts as lists of code points, with Python's `str.isspace` and `str.strip`.
use Prim.Native.Nat.{ℕ, ◌≤◌}
use Prim.Native.Char.{code}
use Prim.Native.String.{String}
use mathlib.Core.Path.{◌≡◌, refl}
use mathlib.Core.Logic.{inl, inr}
use mathlib.Core.Bool.{Bool, true, false, ◌&&◌, ◌||◌}
use mathlib.Core.List.{List, [], ◌∷◌, ◌++◌}
use native.Mathlib.Omega.{arith}
use signalscope.Shared.Lists.{length}
use signalscope.Shared.Tests.{leb, ◌==◌, if◌then◌else◌, Bool-cases}

abbrev pub Text : Type 0
Text = List ℕ

-- The code points of a literal.
abbrev pub codes : String → Text
codes String.[] = []
codes (String.◌∷◌ c s) = code c ∷ codes s

-- `str.isspace` of one character: White_Space and the separators that Python adds.
unfoldable pub is_space : ℕ → Bool
is_space c =
    (leb 9 c && leb c 13)
    || (leb 28 c && leb c 32)
    || c == 133
    || c == 160
    || c == 5760
    || (leb 8192 c && leb c 8202)
    || c == 8232
    || c == 8233
    || c == 8239
    || c == 8287
    || c == 12288

-- `str.lstrip`
unfoldable pub lstrip : Text → Text
lstrip [] = []
lstrip (c ∷ cs) = if is_space c then lstrip cs else c ∷ cs

-- `str.rstrip`
unfoldable pub rstrip : Text → Text
rstrip [] = []
rstrip (c ∷ cs) = elim (rstrip cs) [ [] ↦ if is_space c then [] else c ∷ [] | d ∷ ds ↦ c ∷ d ∷ ds ]

-- `str.strip`
unfoldable pub strip : Text → Text
strip t = rstrip (lstrip t)

-- The text does not begin with whitespace.
abbrev pub HeadClean : Text → Type 0
HeadClean [] = Unit
HeadClean (c ∷ cs) = is_space c ≡ false

-- The text does not end with whitespace.
abbrev pub TailClean : Text → Type 0
TailClean t = rstrip t ≡ t

lstrip-HeadClean : (t : Text) → HeadClean (lstrip t)
unfolding lstrip
lstrip-HeadClean [] = tt
lstrip-HeadClean (c ∷ cs) = elim (Bool-cases (is_space c)) [
  | inl s ↦ rw s (lstrip-HeadClean cs)
  | inr n ↦ rw n n
]

lstrip_of_HeadClean : (t : Text) → HeadClean t → lstrip t ≡ t
unfolding lstrip
lstrip_of_HeadClean [] h = refl
lstrip_of_HeadClean (c ∷ cs) h = rw h

rstrip-HeadClean : (t : Text) → HeadClean t → HeadClean (rstrip t)
unfolding rstrip
rstrip-HeadClean [] h = tt
rstrip-HeadClean (c ∷ cs) h =
    elim (rstrip cs)
      as (λ r.
        HeadClean (elim r [ [] ↦ if is_space c then [] else c ∷ [] | d ∷ ds ↦ c ∷ d ∷ ds ])) [
          | [] ↦ rw h h
          | d ∷ ds ↦ h
        ]

pub rstrip-rstrip : (t : Text) → rstrip (rstrip t) ≡ rstrip t
unfolding rstrip
rstrip-rstrip [] = refl
rstrip-rstrip (c ∷ cs) = ground (arith, rstrip-rstrip cs)

length-rstrip-le : (t : Text) → length (rstrip t) ≤ length t
unfolding rstrip
length-rstrip-le [] = omega arith
length-rstrip-le (c ∷ cs) = ground (arith, length-rstrip-le cs)

-- Nothing is stripped after a last character that is no whitespace.
pub rstrip-append : (t : Text) (c : ℕ) → is_space c ≡ false → rstrip (t ++ c ∷ []) ≡ t ++ c ∷ []
unfolding rstrip
rstrip-append [] c h = rw h
rstrip-append (d ∷ []) c h = rw (rstrip, h)
rstrip-append (d ∷ e ∷ t) c h = rw (rstrip, rstrip-append (e ∷ t) c h)

pub strip-HeadClean : (t : Text) → HeadClean (strip t)
unfolding strip
strip-HeadClean t = rstrip-HeadClean (lstrip t) (lstrip-HeadClean t)

pub strip-TailClean : (t : Text) → TailClean (strip t)
unfolding strip
strip-TailClean t = rstrip-rstrip (lstrip t)

-- A text with clean ends is what `strip` returns for it.
pub strip_of_clean : (t : Text) → HeadClean t → TailClean t → strip t ≡ t
unfolding strip
strip_of_clean t h e = rw (lstrip_of_HeadClean t h) e

pub strip-strip : (t : Text) → strip (strip t) ≡ strip t
strip-strip t = strip_of_clean (strip t) (strip-HeadClean t) (strip-TailClean t)

-- `==` on texts
unfoldable pub text_eq : Text → Text → Bool
text_eq [] [] = true
text_eq (a ∷ cs) (b ∷ bs) = a == b && text_eq cs bs
text_eq _ _ = false

pub text_eq_refl : (t : Text) → text_eq t t ≡ true
unfolding text_eq
text_eq_refl [] = refl
text_eq_refl (c ∷ cs) = ground (arith, text_eq_refl cs)

pub text_eq→eq : (s t : Text) → text_eq s t ≡ true → s ≡ t
unfolding text_eq
text_eq→eq [] [] h = refl
text_eq→eq [] (c ∷ t) h = absurd (ground arith)
text_eq→eq (c ∷ s) [] h = absurd (ground arith)
text_eq→eq (c ∷ s) (d ∷ t) h = ground (arith, text_eq→eq s t)

-- `startswith`, the prefix first
unfoldable pub starts_with : Text → Text → Bool
starts_with [] text = true
starts_with (c ∷ cs) [] = false
starts_with (c ∷ cs) (d ∷ ds) = c == d && starts_with cs ds
