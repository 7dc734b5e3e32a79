-- ===== src/Database/Consumer.antt =====
-- internal/event/failover/consumer.go: a round of the consumer that runs the statements put off.
use Prim.Native.String.{String}
use go_notification.Prelude.{Bool, not, List, [], ◌∷◌, ℕ, Option, none, some, if◌then◌else◌}
use go_notification.Errs.{Err, Result, ok, err}
use go_notification.Effect.{Effect, bind_result}
use go_notification.Database.Pool.{ConnPoolEvent, Message}

pub data KafkaEvent : Type 0 where
  message : Message → KafkaEvent
  kafka_error : Err → KafkaEvent
  other_event : KafkaEvent

-- The consumer of kafka, encoding/json, the monitor and the database.
pub record Consumer {ℓ κ} (S : Type ℓ) (Arg Partition : Type κ) : Type (ℓ ⊔ κ) where
  pub is_healthy : S → Bool
  pub assignment : Effect S (List Partition)
  pub pause : List Partition → Effect S (Unit {0})
  pub sleep : S → S
  pub resume : List Partition → Effect S (Unit {0})
  pub poll : S → Option KafkaEvent × S
  pub unmarshal : List ℕ → Result (ConnPoolEvent Arg)
  pub exec : String → List Arg → Effect S (Unit {0})
  pub commit : Message → Effect S (Unit {0})

module _ {ℓ κ} {S : Type ℓ} {Arg Partition : Type κ} (c : Consumer S Arg Partition) where
  unfoldable pub process_message : Message → Effect S (Unit {0})
  process_message m s =
      bind_result (c.unmarshal m.key, s) λ event s1. c.exec event.sql event.args s1

  -- the partitions rest for two seconds
  unfoldable pub rest : List Partition → Effect S (Unit {0})
  rest [] s = (ok tt, s)
  rest (p ∷ ps) s = bind_result (c.pause (p ∷ ps) s) λ _ s1. c.resume (p ∷ ps) (c.sleep s1)

  unfoldable pub handle : Option KafkaEvent → Effect S (Unit {0})
  unfolding process_message
  handle none s = (ok tt, s)
  handle (some (message m)) s = bind_result (process_message m s) λ _ s1. c.commit m s1
  handle (some (kafka_error e)) s = (err e, s)
  handle (some other_event) s = (ok tt, s)

  unfoldable pub consume : Effect S (Unit {0})
  unfolding rest handle
  consume s =
      if not (c.is_healthy s)
      then bind_result (c.assignment s) (λ ps s1. rest ps s1)
      else (let (event, s1) = c.poll s in handle event s1)
