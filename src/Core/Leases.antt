-- ===== src/Core/Leases.antt =====
-- Leases of claimed jobs (src/signalscope/core/leases.py). Times are counted in microseconds.
use signalscope.Shared.{ℕ, ◌+◌, leb, if◌then◌else◌}
use signalscope.Shared.{Result, ok, err}

-- A `datetime` and a `timedelta`.
abbrev pub Time : Type 0
Time = ℕ

abbrev pub default_lease_duration : Time
default_lease_duration = 300000000

pub record LeasePolicy : Type 0 where
  pub duration : Time

pub data LeaseError : Type 0 where
  duration_not_positive : LeaseError

-- `LeasePolicy(duration)` with `__post_init__`
unfoldable pub make_lease_policy : Time → Result LeaseError LeasePolicy
make_lease_policy duration =
    if leb duration 0 then err duration_not_positive else ok (record { duration = duration })

abbrev pub default_lease_policy : LeasePolicy
default_lease_policy = record { duration = default_lease_duration }

unfoldable pub expires_at : LeasePolicy → Time → Time
expires_at lease now = now + lease.duration
