-- ===== src/Api/RequestSize.antt =====
-- api/middleware.py: RequestSizeLimitMiddleware. The route behind it is seen through what it awaits:
-- the messages that it receives and those that it sends.
use signalscope.Shared.{
  ℕ, ◌+◌, ◌-◌, ◌*◌, Bool, true, false, not, ◌&&◌, Option, none, some, List, [], ◌∷◌, ltb, leb,
  if◌then◌else◌,
}
use signalscope.Shared.Text.{starts_with, Text, codes}

-- An incoming message: a part of the body, by its length, or a disconnect.
pub data Message : Type 0 where
  request : ℕ → Message
  disconnect : Message

pub data Outgoing (R : Type 0) : Type 0 where
  from_app : R → Outgoing R
  payload_too_large : Outgoing R

-- What the route does next, with the message that the server has for it.
pub data Event (R : Type 0) : Type 0 where
  receives : Message → Event R
  sends : R → Event R

pub record Exchange (R : Type 0) : Type 0 where
  pub received : ℕ
  pub rejected : Bool
  -- What the route was given, and what the client was sent, the newest first.
  pub delivered : List Message
  pub sent : List (Outgoing R)

abbrev pub is_digit : ℕ → Bool
is_digit c = leb b'0' c && leb c b'9'

abbrev pub all_digits : Text → Bool
all_digits [] = true
all_digits (c ∷ cs) = is_digit c && all_digits cs

abbrev pub is_empty : Text → Bool
is_empty [] = true
is_empty (c ∷ cs) = false

-- `bytes.isdigit`
unfoldable pub isdigit : Text → Bool
isdigit t = not (is_empty t) && all_digits t

-- `int` of digits, from the value of those before; Python's limit of 4,300 digits is left out.
unfoldable pub int_from : ℕ → Text → ℕ
int_from n [] = n
int_from n (c ∷ cs) = int_from (n * 10 + (c - b'0')) cs

-- `length is not None and length.isdigit() and int(length) > limit`
unfoldable pub is_declared_too_large : Option Text → ℕ → Bool
is_declared_too_large none limit = false
is_declared_too_large (some t) limit = isdigit t && ltb limit (int_from 0 t)

unfoldable pub limit_for : Text → ℕ → ℕ → ℕ
limit_for content_type max_json_bytes max_upload_bytes =
    if starts_with (codes "application/json") content_type then max_json_bytes else max_upload_bytes

module _ {R : Type 0} where
  abbrev pub quiet : Exchange R
  quiet = record { received = 0; rejected = false; delivered = []; sent = [] }

  -- `receive_with_limit`, which sends the error and raises, and `send_unless_rejected`
  unfoldable pub step : ℕ → Event R → Exchange R → Exchange R
  step limit (receives disconnect) x = record x { delivered = disconnect ∷ x.delivered }
  step limit (receives (request n)) x =
      if ltb limit (x.received + n)
      then record x {
        received = x.received + n;
        rejected = true;
        sent = payload_too_large ∷ x.sent;
      }
      else record x { received = x.received + n; delivered = request n ∷ x.delivered }
  step limit (sends r) x = if x.rejected then x else record x { sent = from_app r ∷ x.sent }

  unfoldable pub run : ℕ → List (Event R) → Exchange R → Exchange R
  run limit [] x = x
  run limit (e ∷ events) x = run limit events (step limit e x)

  -- `__call__`: with a declared length that is too large the route does not run at all.
  unfoldable pub handle : Option Text → Text → ℕ → ℕ → List (Event R) → Exchange R
  handle content_length content_type max_json_bytes max_upload_bytes events =
      let limit = limit_for content_type max_json_bytes max_upload_bytes in
      if is_declared_too_large content_length limit
      then record quiet { sent = payload_too_large ∷ [] }
      else run limit events quiet
