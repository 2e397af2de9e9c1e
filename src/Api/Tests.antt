-- ===== src/Api/Tests.antt =====
-- A body in two parts that is over a limit of ten bytes.
use signalscope.Shared.{ℕ, ◌≤◌, ◌≡◌, refl, true, false, some, List, [], ◌∷◌, ltb}
use signalscope.Shared.Text.{codes}
use signalscope.Api.RequestSize.{
  request, Event, receives, sends, Exchange, is_declared_too_large, isdigit, int_from, limit_for,
  handle,
}
use signalscope.Api.Limits.{total, asked, body_is_limited}

abbrev events : List (Event ℕ)
events = receives (request 6) ∷ receives (request 6) ∷ sends 200 ∷ []

body_is_limited_example :
    let limit = limit_for (codes "application/json") 10 50 in
    let x = handle (some (codes "7")) (codes "application/json") 10 50 events in
    (total x.delivered ≤ limit)
    × (is_declared_too_large (some (codes "7")) limit ≡ false
        → x.rejected ≡ ltb limit (asked events))
body_is_limited_example = body_is_limited (some (codes "7")) (codes "application/json") 10 50 events

declared : is_declared_too_large (some (codes "12")) 10 ≡ true
unfolding is_declared_too_large isdigit int_from
declared = refl

abbrev over : Exchange ℕ
over = record { received = 12; rejected = true; delivered = request 6 ∷ []; sent = [] }
