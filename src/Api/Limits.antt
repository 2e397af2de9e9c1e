-- ===== src/Api/Limits.antt =====
-- How much of a body a route is given, and what the client is sent when there is too much.
use signalscope.Shared.{
  ℕ, ◌+◌, ◌≤◌, ◌<◌, ◌≡◌, refl, inl, inr, Bool, true, false, Option, List, [], ◌∷◌, arith, ltb, ◌∙◌,
  Bool-cases,
}
use signalscope.Shared.Text.{Text}
use signalscope.Api.RequestSize.{
  Message, request, disconnect, Outgoing, from_app, payload_too_large, Event, receives, sends,
  Exchange, quiet, is_declared_too_large, limit_for, step, run, handle,
}

-- The length of all parts of the body in a list of messages.
unfoldable pub total : List Message → ℕ
total [] = 0
total (request n ∷ messages) = n + total messages
total (disconnect ∷ messages) = total messages

-- The length of all that the server has for the route, as far as the route asks for it.
unfoldable pub asked : {R : Type 0} → List (Event R) → ℕ
asked [] = 0
asked (receives (request n) ∷ events) = n + asked events
asked (receives disconnect ∷ events) = asked events
asked (sends r ∷ events) = asked events

module _ {R : Type 0} (limit : ℕ) where
  -- The route was given no more than the limit, and all that was received if nothing was rejected;
  -- what was received is over the limit if something was.
  abbrev IsWithin : Exchange R → Type 0
  IsWithin x =
      (total x.delivered ≤ limit)
      × (x.rejected ≡ false → total x.delivered ≡ x.received)
      × (x.rejected ≡ true → limit < x.received)

  step-IsWithin : (e : Event R) (x : Exchange R) → IsWithin x → IsWithin (step limit e x)
  unfolding step total
  step-IsWithin (receives disconnect) x h = h
  step-IsWithin (sends r) x h = elim (Bool-cases x.rejected) [
    | inl y ↦ simp y (h.0, (λ f. absurd (ground arith)), (λ _. h.2 y))
    | inr n ↦ simp n (h.0, (λ _. h.1 n), (λ f. absurd (ground arith)))
  ]
  step-IsWithin (receives (request n)) x h = elim (Bool-cases (ltb limit (x.received + n))) [
    | inl y ↦ rw y (h.0, (λ f. absurd (ground arith)), (λ _. ground arith))
    | inr m ↦ elim (Bool-cases x.rejected) [
      | inr clean ↦
          rw m (
            ground (arith, h.1 clean),
            (λ _. omega (arith, h.1 clean)),
            (λ f. absurd (ground arith)),
          )
      | inl over ↦ absurd (let far = h.2 over in ground (arith, far))
    ]
  ]

  run-IsWithin :
      (events : List (Event R)) (x : Exchange R) → IsWithin x → IsWithin (run limit events x)
  unfolding run
  run-IsWithin [] x h = h
  run-IsWithin (e ∷ events) x h = run-IsWithin events (step limit e x) (step-IsWithin e x h)

  step-received :
      (e : Event R) (x : Exchange R) → (step limit e x).received ≡ x.received + asked (e ∷ [])
  unfolding step asked
  step-received (receives disconnect) x = omega arith
  step-received (receives (request n)) x = elim (Bool-cases (ltb limit (x.received + n))) [
    | inl y ↦ rw y (omega arith)
    | inr m ↦ rw m (omega arith)
  ]
  step-received (sends r) x = elim (Bool-cases x.rejected) [
    | inl y ↦ simp y (omega arith)
    | inr n ↦ simp n (omega arith)
  ]

  asked-cons :
      (e : Event R) (events : List (Event R)) → asked (e ∷ events) ≡ asked (e ∷ []) + asked events
  unfolding asked
  asked-cons (receives (request n)) events = omega arith
  asked-cons (receives disconnect) events = omega arith
  asked-cons (sends r) events = omega arith

  run-received :
      (events : List (Event R)) (x : Exchange R)
      → (run limit events x).received ≡ x.received + asked events
  unfolding run
  run-received [] x = unfold asked in omega arith
  run-received (e ∷ events) x =
      omega (arith, run-received events (step limit e x), step-received e x, asked-cons e events)

-- What the client got from the route.
unfoldable pub app_sent : {R : Type 0} → List (Outgoing R) → List R
app_sent [] = []
app_sent (from_app r ∷ sent) = r ∷ app_sent sent
app_sent (payload_too_large ∷ sent) = app_sent sent

module _ {R : Type 0} where
  -- The route never reads more of a body than the limit for its content type, whatever length the
  -- client declares. Where no length over the limit is declared, the request is rejected exactly if
  -- the parts that the route asks for are together over the limit.
  pub body_is_limited :
      (content_length : Option Text) (content_type : Text) (max_json_bytes max_upload_bytes : ℕ)
      (events : List (Event R))
      → let limit = limit_for content_type max_json_bytes max_upload_bytes in
        let x = handle content_length content_type max_json_bytes max_upload_bytes events in
        (total x.delivered ≤ limit)
        × (is_declared_too_large content_length limit ≡ false
            → x.rejected ≡ ltb limit (asked events))
  unfolding handle total
  body_is_limited content_length content_type max_json_bytes max_upload_bytes events =
      let limit = limit_for content_type max_json_bytes max_upload_bytes in
      let x = run {R = R} limit events quiet in
      let (fits, clean, over) =
        run-IsWithin limit events quiet (omega arith, (λ _. refl), (λ f. absurd (ground arith))) in
      let all : x.received ≡ asked events = run-received limit events quiet ∙ (omega arith) in
      elim (Bool-cases (is_declared_too_large content_length limit)) [
        | inl y ↦ rw y (omega arith, (λ f. absurd (ground arith)))
        | inr n ↦ rw n (
          fits,
          λ _.
              rejected_iff x.rejected limit (asked events) (total x.delivered) x.received all fits
                clean over,
        )
      ]
    where
      rejected_iff :
          (b : Bool) (limit body delivered received : ℕ)
          → received ≡ body
          → delivered ≤ limit
          → (b ≡ false → delivered ≡ received)
          → (b ≡ true → limit < received)
          → b ≡ ltb limit body
      rejected_iff true limit body delivered received e f c o =
          let far = o refl in ground (arith, far)
      rejected_iff false limit body delivered received e f c o =
          let same = c refl in ground (arith, same)

  step-silent :
      (limit : ℕ) (e : Event R) (x : Exchange R)
      → x.rejected ≡ true
      → ((step limit e x).rejected ≡ true) × (app_sent (step limit e x).sent ≡ app_sent x.sent)
  unfolding step app_sent
  step-silent limit (receives disconnect) x h = (h, refl)
  step-silent limit (sends r) x h = simp h (refl, refl)
  step-silent limit (receives (request n)) x h = elim (Bool-cases (ltb limit (x.received + n))) [
    | inl y ↦ rw y (refl, refl)
    | inr m ↦ rw m (h, refl)
  ]

  -- After a request was rejected for its size, nothing that the route sends reaches the client,
  -- whatever the route does.
  rejected_route_is_silent :
      (limit : ℕ) (events : List (Event R)) (x : Exchange R)
      → x.rejected ≡ true
      → app_sent (run limit events x).sent ≡ app_sent x.sent
  unfolding run
  rejected_route_is_silent limit [] x h = refl
  rejected_route_is_silent limit (e ∷ events) x h =
      let (still, same) = step-silent limit e x h in
      rejected_route_is_silent limit events (step limit e x) still ∙ same
