-- ===== src/Database/Tests.antt =====
-- A monitor's history, a consumer of fixed answers, and the theorems about them.
use go_notification.Prelude.{ℕ, suc, ◌≡◌, refl, true, false, [], ◌∷◌, some}
use go_notification.Errs.{ok, err, failure}
use go_notification.Database.Monitor.{health, health_check}
use go_notification.Database.History.{health-health_check, verdict}
use go_notification.Database.Pool.{message_of}
use go_notification.Database.Consumer.{Consumer, message, consume}
use go_notification.Database.Undelivered.{consume-message_of}

-- one success does not undo three failures
health-health_check_example :
    health (health_check (ok tt ∷ err (failure 1) ∷ err (failure 1) ∷ err (failure 1) ∷ [])) ≡ false
unfolding verdict
health-health_check_example =
    health-health_check (ok tt ∷ err (failure 1) ∷ err (failure 1) ∷ err (failure 1) ∷ [])

-- the state counts the messages committed
abbrev reader : Consumer ℕ ℕ ℕ
reader = record {
  is_healthy = λ s. true;
  assignment = λ s. (ok [], s);
  pause = λ ps s. (ok tt, s);
  sleep = λ s. s;
  resume = λ ps s. (ok tt, s);
  poll = λ s. (some (message (message_of (1 ∷ []))), s);
  unmarshal = λ bytes. elim bytes [
    | [] ↦ err (failure 1)
    | b ∷ bs ↦ ok (record { sql = "UPDATE"; args = [] })
  ];
  exec = λ sql args s. (err (failure 2), s);
  commit = λ m s. (ok tt, suc s);
}

consume-message_of_example : consume reader 0 ≡ (err (failure 1), 0)
consume-message_of_example = consume-message_of reader (1 ∷ []) 0 0 (failure 1) refl refl refl
