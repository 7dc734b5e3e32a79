-- ===== src/Database/Undelivered.antt =====
-- What becomes of the statements that were put off, and what is acknowledged to Kafka.
use Prim.Native.String.{String}
use go_notification.Prelude.{◌≡◌, refl, List, [], ◌∷◌, ℕ, true, some, none, inl, inr, Bool-cases}
use go_notification.Errs.{Err, Result, ok, err, Result-cases}
use go_notification.Effect.{Effect, bind_result, bind_result-cong}
use go_notification.Database.Pool.{message_of, Message}
use go_notification.Database.Consumer.{
  Consumer, message, kafka_error, other_event, process_message, handle, consume, rest,
}

module _ {ℓ κ} {S : Type ℓ} {Arg Partition : Type κ} (c : Consumer S Arg Partition) where
  -- The consumer reads the key of a message, and the producer writes only the value. If JSON refuses
  -- an empty text, then a message of the producer, whatever it holds, is refused with that error by a
  -- healthy consumer: nothing is executed and nothing is committed after the poll.
  pub consume-message_of :
      (bytes : List ℕ) (s s1 : S) (e : Err)
      → c.unmarshal [] ≡ err e
      → c.is_healthy s ≡ true
      → c.poll s ≡ (some (message (message_of bytes)), s1)
      → consume c s ≡ (err e, s1)
  unfolding consume handle process_message
  consume-message_of bytes s s1 e refused healthy polled = rw (healthy, polled, refused) refl

module _ {ℓ κ} {S : Type ℓ} {Arg Partition : Type κ} (c : Consumer S Arg Partition)
    (commit : Message → Effect S (Unit {0})) where
  -- the consumer with another commit
  abbrev pub committing : Consumer S Arg Partition
  committing = record c { commit = commit }

  process_message-failing :
      (m : Message) (s : S)
      → ((sql : String) (args : List Arg) (s : S) → (e : Err) × ((c.exec sql args s).0 ≡ err e))
      → (e : Err) × ((process_message c m s).0 ≡ err e)
  unfolding process_message
  process_message-failing m s failing = elim (Result-cases (c.unmarshal m.key)) [
    | inl (event, read) ↦ rw read (failing event.sql event.args s)
    | inr (e, refused) ↦ (e, rw refused refl)
  ]

  handle-committing :
      (event : _) (s : S)
      → ((sql : String) (args : List Arg) (s : S) → (e : Err) × ((c.exec sql args s).0 ≡ err e))
      → handle committing event s ≡ handle c event s
  unfolding handle
  handle-committing none s failing = refl
  handle-committing (some (kafka_error e)) s failing = refl
  handle-committing (some other_event) s failing = refl
  handle-committing (some (message m)) s failing =
      bound (process_message c m s) (process_message-failing m s failing)
    where
      bound :
          (r : Result (Unit {0}) × S)
          → ((e : Err) × (r.0 ≡ err e))
          → bind_result r (λ _ s1. commit m s1) ≡ bind_result r (λ _ s1. c.commit m s1)
      bound (err e, s1) h = refl
      bound (ok u, s1) h = cc

  rest-committing : (ps : List Partition) (s : S) → rest committing ps s ≡ rest c ps s
  unfolding rest
  rest-committing [] s = refl
  rest-committing (p ∷ ps) s = refl

  -- A message is committed only after its statement was executed: if no statement succeeds, in any
  -- state, then another commit makes no difference to a round of the consumer.
  consume-committing :
      (s : S)
      → ((sql : String) (args : List Arg) (s : S) → (e : Err) × ((c.exec sql args s).0 ≡ err e))
      → consume committing s ≡ consume c s
  unfolding consume
  consume-committing s failing = elim (Bool-cases (c.is_healthy s)) [
    | inl healthy ↦ rw healthy (handle-committing (c.poll s).0 (c.poll s).1 failing)
    | inr ill ↦ rw ill (
        bind_result-cong (c.assignment s) (λ ps s1. rest committing ps s1) (λ ps s1. rest c ps s1)
          (λ ps h. rest-committing ps (c.assignment s).1))
  ]
