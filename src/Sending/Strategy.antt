-- ===== src/Sending/Strategy.antt =====
-- internal/service/sendstrategy: immediate.go, default.go and types.go.
use go_notification.Prelude.{
  Bool, true, false, not, List, [], ◌∷◌, map, Option, none, some, ℤ, pos, ◌+ℤ◌, wrap64, Instant,
  if◌then◌else◌, is_some,
}
use Prim.Native.String.{String}
use go_notification.Errs.{Err, Result, ok, err, Sentinel, is, failure}
use go_notification.Effect.{Effect, pure, fail, ◌>>=◌, ◌>>◌}
use go_notification.Domain.Strategy.{invalid}
use go_notification.Domain.Notification.{
  Notification, set_send_time, is_immediate, SendStatus, sending, succeeded,
}
use go_notification.Domain.Tx.{BusinessConfig}
use go_notification.Api.Convert.{SendResponse}
use go_notification.Api.Batch.{is_nil, is_sending}

-- The repository, the sender, the configurations and the clock that the strategies use. `create`
-- returns its notification and its error side by side, as the immediate strategy reads both.
pub record Backend {ℓ} (S : Type ℓ) : Type ℓ where
  pub now : S → Instant × S
  pub create : Notification → S → (Notification × Option Err) × S
  pub create_with_callback_log : Notification → Effect S Notification
  pub batch_create : List Notification → Effect S (List Notification)
  pub batch_create_with_callback_log : List Notification → Effect S (List Notification)
  pub get_by_key : ℤ → String → Effect S Notification
  pub cas_status : Notification → Effect S (Unit {0})
  pub send : Notification → Effect S SendResponse
  pub batch_send : List Notification → Effect S (List SendResponse)
  pub get_config : ℤ → Effect S BusinessConfig

-- the interface SendStrategy
pub record SendStrategy {ℓ} (S : Type ℓ) : Type ℓ where
  pub send : Notification → Effect S SendResponse
  pub batch_send : List Notification → Effect S (List SendResponse)

abbrev pub is_succeeded : SendStatus → Bool
is_succeeded succeeded = true
is_succeeded _ = false

abbrev pub response_of : Notification → SendResponse
response_of n = record { notification_id = n.id; status = n.status }

abbrev pub send_failed : Err
send_failed = Sentinel.send_notification_failed ∷ []

-- `created, err` read as a result
abbrev pub as_result : Notification × Option Err → Result Notification
as_result (n, none) = ok n
as_result (n, some e) = err e

module _ {ℓ} {S : Type ℓ} (backend : Backend S) where
  -- each notification of a slice in turn, at its own reading of the clock
  unfoldable pub set_send_times : List Notification → S → List Notification × S
  set_send_times [] s = ([], s)
  set_send_times (n ∷ ns) s =
      let (now, s') = backend.now s in
      let (rest, s'') = set_send_times ns s' in (set_send_time now n ∷ rest, s'')

  -- a notification that was stored before: its status SENDING is taken under the optimistic lock
  unfoldable pub send_again : Notification → Effect S SendResponse
  send_again found =
      if is_succeeded found.status
      then pure (response_of found)
      else if is_sending found.status
      then fail send_failed
      else backend.cas_status (record found { status = sending })
        >> backend.send
            (record found { status = sending; version = wrap64 (found.version +ℤ pos 1) })

  -- the part of ImmediateSendStrategy.Send after the call of `create`
  unfoldable pub after_create : Notification × Option Err → Effect S SendResponse
  unfolding send_again
  after_create (created, none) = backend.send created
  after_create (created, some e) =
      if not (is e Sentinel.notification_duplicate)
      then fail e
      else backend.get_by_key created.biz_id created.key >>= send_again

  unfoldable pub immediate_send : Notification → Effect S SendResponse
  unfolding after_create
  immediate_send n s =
      let (now, s') = backend.now s in
      let (created, s'') = backend.create (set_send_time now n) s' in after_create created s''

  unfoldable pub immediate_batch_send : List Notification → Effect S (List SendResponse)
  unfolding set_send_times
  immediate_batch_send ns s =
      if is_nil ns
      then (err send_failed, s)
      else let (timed, s') = set_send_times ns s in
        (backend.batch_create timed >>= backend.batch_send) s'

  abbrev pub immediate_strategy : SendStrategy S
  immediate_strategy = record { send = immediate_send; batch_send = immediate_batch_send }

  abbrev pub has_callback : Result BusinessConfig → Bool
  has_callback (err _) = false
  has_callback (ok config) = is_some config.callback_config

  unfoldable pub need_create_callback_log : Notification → S → Bool × S
  need_create_callback_log n s =
      let (config, s') = backend.get_config n.biz_id s in (has_callback config, s')

  unfoldable pub create : Notification → Effect S Notification
  unfolding need_create_callback_log
  create n s =
      let (needed, s') = need_create_callback_log n s in
      if not needed
      then backend.create_with_callback_log n s'
      else let (created, s'') = backend.create n s' in (as_result created, s'')

  unfoldable pub default_send : Notification → Effect S SendResponse
  unfolding create
  default_send n s =
      let (now, s') = backend.now s in
      (create (set_send_time now n) >>= λ created. pure (response_of created)) s'

  -- `notifications[first]` of a slice that is not empty
  unfoldable pub batch_create : List Notification → Effect S (List Notification)
  unfolding need_create_callback_log
  batch_create [] s = (ok [], s)
  batch_create (first ∷ ns) s =
      let (needed, s') = need_create_callback_log first s in
      if needed
      then backend.batch_create_with_callback_log (first ∷ ns) s'
      else backend.batch_create (first ∷ ns) s'

  unfoldable pub default_batch_send : List Notification → Effect S (List SendResponse)
  unfolding set_send_times batch_create
  default_batch_send ns s =
      if is_nil ns
      then (err invalid, s)
      else let (timed, s') = set_send_times ns s in
        (batch_create timed >>= λ created. pure (map response_of created)) s'

  abbrev pub default_strategy : SendStrategy S
  default_strategy = record { send = default_send; batch_send = default_batch_send }

module _ {ℓ} {S : Type ℓ} (at_once later : SendStrategy S) where
  unfoldable pub select_strategy : Notification → SendStrategy S
  select_strategy n = if is_immediate n then at_once else later

  unfoldable pub dispatcher_send : Notification → Effect S SendResponse
  unfolding select_strategy
  dispatcher_send n = SendStrategy.send (select_strategy n) n

  -- The format of the error for an empty list has a verb and no operand, so that it wraps nothing.
  unfoldable pub dispatcher_batch_send : List Notification → Effect S (List SendResponse)
  unfolding select_strategy
  dispatcher_batch_send [] = fail (failure 4)
  dispatcher_batch_send (n ∷ ns) = SendStrategy.batch_send (select_strategy n) (n ∷ ns)

  abbrev pub dispatcher : SendStrategy S
  dispatcher = record { send = dispatcher_send; batch_send = dispatcher_batch_send }
