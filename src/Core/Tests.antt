-- ===== src/Core/Tests.antt =====
-- The theorems on messages at a blank and at a padded one.
use signalscope.Shared.{◌≡◌, refl}
use signalscope.Shared.Text.{codes, strip, lstrip, rstrip, is_space}
use signalscope.Core.Errors.{
  short_error_message, full_message, cut, or_default, something_went_wrong,
}

padded : short_error_message (codes "  no route \n") ≡ codes "no route"
unfolding short_error_message full_message cut strip lstrip rstrip is_space or_default
    something_went_wrong
padded = refl

blank : short_error_message (codes " \t ") ≡ codes "Something went wrong."
unfolding short_error_message full_message cut strip lstrip rstrip is_space or_default
    something_went_wrong
blank = refl
