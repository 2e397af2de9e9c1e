-- ===== src/Core/Errors.antt =====
-- Error messages for people (src/signalscope/core/errors.py).
use signalscope.Shared.{
  ℕ, suc, ◌-◌, ◌≤◌, ◌<◌, ◌≡◌, refl, [], ◌∷◌, ◌++◌, append_assoc, arith, dec_le, leb, le→leb, lt→leb,
  if◌then◌else◌, length, take, length-append, length-take,
}
use signalscope.Shared.Text.{
  Text, codes, is_space, strip, rstrip, HeadClean, TailClean, strip-HeadClean, strip-TailClean,
  strip_of_clean, rstrip-append,
}

abbrev pub error_message_max_length : ℕ
error_message_max_length = 1000

unfoldable pub something_went_wrong : Text
something_went_wrong = codes "Something went wrong."

-- `value or default`, for texts
unfoldable pub or_default : Text → Text → Text
or_default [] d = d
or_default (c ∷ cs) d = c ∷ cs

pub ellipsis : Text
ellipsis = codes "..."

-- `message.strip() or "Something went wrong."`
unfoldable pub full_message : Text → Text
full_message message = or_default (strip message) something_went_wrong

-- What fits into the column.
unfoldable pub cut : Text → Text
cut m =
    if leb (length m) error_message_max_length
    then m
    else take (error_message_max_length - 3) m ++ ellipsis

unfoldable pub short_error_message : Text → Text
short_error_message message = cut (full_message message)

full_message-clean :
    (message : Text) → HeadClean (full_message message) × TailClean (full_message message)
unfolding full_message something_went_wrong
full_message-clean message = go (strip message) (strip-HeadClean message) (strip-TailClean message)
  where
    go :
        (t : Text)
        → HeadClean t
        → TailClean t
        → HeadClean (or_default t something_went_wrong)
          × TailClean (or_default t something_went_wrong)
    go [] h e = unfold or_default rstrip is_space in (refl, refl)
    go (c ∷ cs) h e = unfold or_default in (h, e)

length-full_message-pos : (message : Text) → 0 < length (full_message message)
unfolding full_message or_default something_went_wrong
length-full_message-pos message = go (strip message)
  where
    go : (t : Text) → 0 < length (or_default t something_went_wrong)
    go [] = omega arith
    go (c ∷ cs) = omega arith

-- A clean text is left as it is.
full_message_of_clean : (t : Text) → 0 < length t → HeadClean t → TailClean t → full_message t ≡ t
unfolding full_message or_default
full_message_of_clean [] p h e = elim p [ ]
full_message_of_clean (c ∷ cs) p h e = rw (strip_of_clean (c ∷ cs) h e)

cut_fits : (m : Text) → length m ≤ error_message_max_length → cut m ≡ m
unfolding cut
cut_fits m h = rw (le→leb (length m) error_message_max_length h)

cut_long :
    (m : Text)
    → error_message_max_length < length m
    → cut m ≡ take (error_message_max_length - 3) m ++ ellipsis
unfolding cut
cut_long m h = rw (lt→leb (length m) error_message_max_length h)

length-cut_long :
    (m : Text) → error_message_max_length < length m → length (cut m) ≡ error_message_max_length
unfolding ellipsis
length-cut_long m h =
    rw (cut_long m h) (omega (arith, length-append (take 997 m) ellipsis, length-take 997 m))

length-cut-le : (m : Text) → length (cut m) ≤ error_message_max_length
length-cut-le m = elim (dec_le (length m) error_message_max_length) [
  | yes h ↦ rw (cut_fits m h) h
  | no h ↦ omega (arith, length-cut_long m (omega arith))
]

cut-cut : (m : Text) → cut (cut m) ≡ cut m
cut-cut m = cut_fits (cut m) (length-cut-le m)

ellipsis-TailClean : (t : Text) → TailClean (t ++ ellipsis)
unfolding ellipsis
ellipsis-TailClean t =
    rw (← append_assoc t (codes "..") (codes "."))
      (rstrip-append (t ++ codes "..") b'.' (unfold is_space in refl))

take-HeadClean : (n : ℕ) (t s : Text) → 0 < length t → HeadClean t → HeadClean (take (suc n) t ++ s)
take-HeadClean n [] s p h = elim p [ ]
take-HeadClean n (c ∷ cs) s p h = h

cut-clean : (m : Text) → HeadClean m → TailClean m → HeadClean (cut m) × TailClean (cut m)
cut-clean m h e = elim (dec_le (length m) error_message_max_length) [
  | yes p ↦ rw (cut_fits m p) (h, e)
  | no p ↦
      rw (cut_long m (omega arith))
        (take-HeadClean 996 m ellipsis (omega arith) h, ellipsis-TailClean (take 997 m))
]

length-cut-pos : (m : Text) → 0 < length m → 0 < length (cut m)
length-cut-pos m h = elim (dec_le (length m) error_message_max_length) [
  | yes p ↦ rw (cut_fits m p) h
  | no p ↦ omega (arith, length-cut_long m (omega arith))
]

-- For every message, the shortened one has from 1 to 1000 characters and neither begins nor ends
-- with whitespace.
short_error_message_fits :
    (message : Text)
    → let short = short_error_message message in
      (0 < length short)
      × (length short ≤ error_message_max_length)
      × HeadClean short
      × TailClean short
unfolding short_error_message
short_error_message_fits message =
    let full = full_message message in
    let (h, e) = full_message-clean message in
    let (h', e') = cut-clean full h e in
    (length-cut-pos full (length-full_message-pos message), length-cut-le full, h', e')

-- Shortening a message a second time changes nothing.
short_error_message_idempotent :
    (message : Text)
    → short_error_message (short_error_message message) ≡ short_error_message message
unfolding short_error_message
short_error_message_idempotent message =
    let full = full_message message in
    let (h, e) = full_message-clean message in
    let (h', e') = cut-clean full h e in
    rw
      (full_message_of_clean (cut full) (length-cut-pos full (length-full_message-pos message)) h'
        e')
      (cut-cut full)
