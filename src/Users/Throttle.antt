-- ===== src/Users/Throttle.antt =====
-- domain/users/login_throttle.py: failed sign ins of one identifier are counted in a window of time,
-- and too many of them block it for a while. Times are in seconds.
use signalscope.Shared.{
  ℕ, ◌+◌, Bool, false, Option, none, some, List, ◌∷◌, ◌==◌, leb, ltb, if◌then◌else◌,
}
use signalscope.Shared.Text.{Text, text_eq}
use signalscope.Shared.Rows.{find, update, delete}

-- A row of authentication_throttles, whose key is the identifier.
pub record Throttle : Type 0 where
  pub identifier : Text
  pub failure_count : ℕ
  pub window_started_at : ℕ
  pub blocked_until : Option ℕ
  pub updated_at : ℕ

pub record ThrottlePolicy : Type 0 where
  pub window : ℕ
  pub max_failures : ℕ
  pub block : ℕ

abbrev pub has_identifier : Text → Throttle → Bool
has_identifier identifier t = text_eq t.identifier identifier

-- `blocked_until is not None and blocked_until > now`
abbrev pub is_after : Option ℕ → ℕ → Bool
is_after none now = false
is_after (some t) now = ltb now t

abbrev pub blocked_by : Option Throttle → ℕ → Bool
blocked_by none now = false
blocked_by (some t) now = is_after t.blocked_until now

unfoldable pub is_blocked : Text → ℕ → List Throttle → Bool
is_blocked identifier now rows = blocked_by (find (has_identifier identifier) rows) now

module _ (policy : ThrottlePolicy) where
  -- `reset`: the window of the row is over, `window_started_at <= now - self.window`.
  unfoldable pub is_over : ℕ → Throttle → Bool
  is_over now t = leb (t.window_started_at + policy.window) now

  unfoldable pub next_count : ℕ → Throttle → ℕ
  next_count now t = if is_over now t then 1 else t.failure_count + 1

  unfoldable pub reset_block : ℕ → Option ℕ
  reset_block now = if policy.max_failures == 1 then some (now + policy.block) else none

  unfoldable pub next_block : ℕ → Throttle → Option ℕ
  next_block now t =
      if is_over now t
      then reset_block now
      else if leb policy.max_failures (next_count now t)
      then some (now + policy.block)
      else t.blocked_until

  unfoldable pub first_failure : Text → ℕ → Throttle
  first_failure identifier now = record {
    identifier = identifier;
    failure_count = 1;
    window_started_at = now;
    blocked_until = reset_block now;
    updated_at = now;
  }

  unfoldable pub next_failure : ℕ → Throttle → Throttle
  next_failure now t = record t {
    failure_count = next_count now t;
    window_started_at = if is_over now t then now else t.window_started_at;
    blocked_until = next_block now t;
    updated_at = now;
  }

  -- INSERT … ON CONFLICT (identifier) DO UPDATE
  unfoldable pub record_failure : Text → ℕ → List Throttle → List Throttle
  record_failure identifier now rows = elim (find (has_identifier identifier) rows) [
    | none ↦ first_failure identifier now ∷ rows
    | some _ ↦ update (has_identifier identifier) (next_failure now) rows
  ]

unfoldable pub clear : Text → List Throttle → List Throttle
clear identifier = delete (has_identifier identifier)
