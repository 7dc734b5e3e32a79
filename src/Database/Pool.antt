-- ===== src/Database/Pool.antt =====
-- internal/pkg/database/connpool/connpool.go and internal/event/failover/producer.go: the pool of
-- connections that hands a statement to Kafka while the database is ill.
use Prim.Native.String.{String}
use go_notification.Prelude.{Bool, not, List, [], ◌∷◌, ℕ, Option, none, some, if◌then◌else◌}
use go_notification.Errs.{Err, Result, ok, err, failure, to_async, database_error}
use go_notification.Effect.{Effect, bind_result}

pub record ConnPoolEvent {ℓ} (Arg : Type ℓ) : Type ℓ where
  pub sql : String
  pub args : List Arg

-- mq.Message and kafka.Message, less what the consumer only logs; a nil slice of bytes is empty
pub record Message : Type 0 where
  pub key : List ℕ
  pub value : List ℕ

-- what arrives first: the end of the context, or the report of the delivery
pub data Delivery : Type 0 where
  done : Err → Delivery
  reported : Option Err → Delivery

-- encoding/json, and the producer of kafka with its channel of deliveries
pub record Broker {ℓ κ} (S : Type ℓ) (Arg : Type κ) : Type (ℓ ⊔ κ) where
  pub marshal : ConnPoolEvent Arg → Result (List ℕ)
  pub send : Message → Effect S (Unit {0})
  pub delivered : S → Delivery × S

abbrev pub report : Delivery → Result (Unit {0})
report (done e) = err e
report (reported none) = ok tt
report (reported (some e)) = err e

abbrev pub message_of : List ℕ → Message
message_of bytes = record { key = []; value = bytes }

unfoldable pub produce {ℓ κ} :
    {S : Type ℓ} {Arg : Type κ} → Broker S Arg → ConnPoolEvent Arg → Effect S (Unit {0})
produce broker event s =
    bind_result (broker.marshal event, s)
      λ bytes. λ s1.
        bind_result (broker.send (message_of bytes) s1)
          λ _. λ s2. let (delivery, s3) = broker.delivered s2 in (report delivery, s3)

-- the database behind the pool, its monitor and the producer
pub record Database {ℓ κ} (S : Type ℓ) (Arg Prepared Outcome Rows Row : Type κ) : Type (ℓ ⊔ κ) where
  pub is_healthy : S → Bool
  pub producer : ConnPoolEvent Arg → Effect S (Unit {0})
  pub prepare : String → Effect S Prepared
  pub exec : String → List Arg → Effect S Outcome
  pub query : String → List Arg → Effect S Rows
  pub query_row : String → List Arg → S → Row × S

module _ {ℓ κ} {S : Type ℓ} {Arg Prepared Outcome Rows Row : Type κ}
    (d : Database S Arg Prepared Outcome Rows Row) where
  unfoldable pub prepare_context : String → Effect S Prepared
  prepare_context sql s =
      if not (d.is_healthy s) then (err (database_error ∷ []), s) else d.prepare sql s

  -- the answer to a statement that was put off; the error of the producer is not wrapped
  abbrev pub put_off : Result (Unit {0}) → Result Outcome
  put_off (err _) = err (failure 0)
  put_off (ok _) = err (to_async ∷ [])

  unfoldable pub exec_context : String → List Arg → Effect S Outcome
  exec_context sql args s =
      if not (d.is_healthy s)
      then (let (produced, s') = d.producer (record { sql = sql; args = args }) s in
          (put_off produced, s'))
      else d.exec sql args s

  unfoldable pub query_context : String → List Arg → Effect S Rows
  query_context sql args s =
      if not (d.is_healthy s) then (err (database_error ∷ []), s) else d.query sql args s

  -- the test of the health is commented out
  unfoldable pub query_row_context : String → List Arg → S → Row × S
  query_row_context sql args s = d.query_row sql args s
