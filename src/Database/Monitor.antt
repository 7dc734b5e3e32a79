-- ===== src/Database/Monitor.antt =====
-- internal/pkg/database/monitor/monitor.go: the health of the database by its heartbeats. The atomic
-- values are read and written by one loop, which runs its rounds one after the other.
use go_notification.Prelude.{
  Bool, true, false, ℤ, pos, ◌+ℤ◌, leb_ℤ, wrap32, if◌then◌else◌, List, [], ◌∷◌,
}
use go_notification.Errs.{Result, ok, err}

pub record Heartbeat : Type 0 where
  pub is_healthy : Bool
  pub fail_counter : ℤ
  pub success_counter : ℤ

abbrev pub default_fail_count : ℤ
default_fail_count = pos 3

abbrev pub default_success_count : ℤ
default_success_count = pos 3

abbrev pub new_heartbeat_db_monitor : Heartbeat
new_heartbeat_db_monitor = record {
  is_healthy = true;
  fail_counter = pos 0;
  success_counter = pos 0;
}

abbrev pub health : Heartbeat → Bool
health h = h.is_healthy

-- a round, for the answer of the ping, which it returns
unfoldable pub health_one_loop : Result (Unit {0}) → Heartbeat → Result (Unit {0}) × Heartbeat
health_one_loop (err e) h =
    let failures = wrap32 (h.fail_counter +ℤ pos 1) in
    (
      err e,
      (if leb_ℤ default_fail_count failures
          then record { is_healthy = false; fail_counter = pos 0; success_counter = pos 0 }
          else record h { fail_counter = failures; success_counter = pos 0 }),
    )
health_one_loop (ok u) h =
    let successes = wrap32 (h.success_counter +ℤ pos 1) in
    (
      ok u,
      (if leb_ℤ default_success_count successes
          then record { is_healthy = true; fail_counter = pos 0; success_counter = pos 0 }
          else record h { fail_counter = pos 0; success_counter = successes }),
    )

-- the rounds of HealthCheck, whose pings are listed with the latest first
unfoldable pub health_check : List (Result (Unit {0})) → Heartbeat
unfolding health_one_loop
health_check [] = new_heartbeat_db_monitor
health_check (ping ∷ earlier) = (health_one_loop ping (health_check earlier)).1
