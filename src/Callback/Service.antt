-- ===== src/Callback/Service.antt =====
-- internal/service/notification/callback/callback.go and internal/domain/callback_log.go: the calls,
-- their logs and their retries.
use Prim.Native.String.{String}
use go_notification.Prelude.{
  ℕ, zero, suc, Bool, true, false, List, [], ◌∷◌, map, length, Option, none, some, ℤ, pos, ◌+ℤ◌,
  eqb_ℤ, wrap32, Instant, Duration, if◌then◌else◌, ◌==◌,
}
use mathlib.Core.Option
use go_notification.Errs.{Result, ok, err, Sentinel}
use go_notification.Effect.{Effect}
use go_notification.Retry.{Strategy, new_retry, next_with_retries}
use go_notification.Domain.Notification.{Notification, ApiChannel, is_empty}
use go_notification.Domain.Tx.{BusinessConfig, CallbackConfig, unix_milli}
use go_notification.Api.Convert.{ApiStatus, get_status, get_channel}

pub data CallbackLogStatus : Type 0 where
  init pending succeeded failed : CallbackLogStatus
  other_log_status : String → CallbackLogStatus

pub record CallbackLog : Type 0 where
  pub id : ℤ
  pub notification : Notification
  pub retry_count : ℤ
  pub next_retry_time : ℤ
  pub status : CallbackLogStatus

-- HandleNotificationResultRequest; the template's ID is sent in decimal
pub record CallbackRequest : Type 0 where
  pub notification_id : ℤ
  pub key : String
  pub receivers : List String
  pub channel : ApiChannel
  pub template_id : ℤ
  pub template_params : List (String × String)
  pub status : ApiStatus

unfoldable pub build_request : Notification → CallbackRequest
build_request n = record {
  notification_id = n.id;
  key = n.key;
  receivers = n.receivers;
  channel = get_channel n.channel;
  template_id = n.template.id;
  template_params = n.template.params;
  status = get_status n.status;
}

-- The clock, the configurations, the table of logs, and the business's service, which answers
-- whether it succeeded.
pub record CallbackServices {ℓ} (S : Type ℓ) : Type ℓ where
  pub now : S → Instant × S
  pub get_by_id : ℤ → Effect S BusinessConfig
  pub handle : String → CallbackRequest → Effect S Bool
  pub find : ℤ → ℤ → ℤ → Effect S (List CallbackLog × ℤ)
  pub find_by_notification_ids : List ℤ → Effect S (List CallbackLog)
  pub update : List CallbackLog → Effect S (Unit {0})

-- the map bizID2Config
unfoldable pub load : List (ℤ × CallbackConfig) → ℤ → Option CallbackConfig
load [] biz_id = none
load ((id, cfg) ∷ rest) biz_id =
    let later = load rest biz_id in if eqb_ℤ id biz_id then some cfg else later

abbrev pub State {ℓ} : Type ℓ → Type ℓ
State S = List (ℤ × CallbackConfig) × S

-- `store` of a configuration that is there
abbrev pub remember :
    ℤ → Option CallbackConfig → List (ℤ × CallbackConfig) → List (ℤ × CallbackConfig)
remember biz_id none cache = cache
remember biz_id (some cfg) cache = (biz_id, cfg) ∷ cache

-- The strategy of the business's policy; `none` is the panic on a configuration, a policy or a
-- strategy that is nil.
unfoldable pub strategy_of : Result (Option CallbackConfig) → Option Strategy
strategy_of (err _) = none
strategy_of (ok none) = none
strategy_of (ok (some cfg)) = elim cfg.retry_policy [
  | none ↦ none
  | some policy ↦ elim (new_retry policy) [
    | none ↦ none
    | some (err _) ↦ none
    | some (ok strategy) ↦ some strategy
  ]
]

-- a log after the strategy was asked
unfoldable pub retried : Instant → Duration × Bool → CallbackLog → CallbackLog
retried now (interval, again) log =
    if again
    then record log {
      next_retry_time = unix_milli (now +ℤ interval);
      retry_count = wrap32 (log.retry_count +ℤ pos 1);
    }
    else record log { status = failed }

-- the notifications of a map by ID, a later one in the place of an earlier one
unfoldable pub put : Notification → List Notification → List Notification
put n [] = n ∷ []
put n (m ∷ ms) = let rest = put n ms in if eqb_ℤ m.id n.id then n ∷ ms else m ∷ rest

unfoldable pub by_id : List Notification → List Notification → List Notification
unfolding put
by_id [] mp = mp
by_id (n ∷ ns) mp = by_id ns (put n mp)

-- `delete(mp, id)`
unfoldable pub delete : ℤ → List Notification → List Notification
delete id [] = []
delete id (m ∷ ms) = let rest = delete id ms in if eqb_ℤ m.id id then rest else m ∷ rest

unfoldable pub delete_logged : List CallbackLog → List Notification → List Notification
unfolding delete
delete_logged [] mp = mp
delete_logged (log ∷ logs) mp = delete_logged logs (delete log.notification.id mp)

abbrev pub error_only : Result Bool → Result (Unit {0})
error_only (ok _) = ok tt
error_only (err e) = err e

module _ {ℓ} {S : Type ℓ} (services : CallbackServices S) where
  unfoldable pub get_config : ℤ → Effect (State S) (Option CallbackConfig)
  unfolding load
  get_config biz_id (cache, s) = elim (load cache biz_id) [
    | some cfg ↦ (ok (some cfg), (cache, s))
    | none ↦
        let (found, s') = services.get_by_id biz_id s in
        elim found [
          | err e ↦ (err e, (cache, s'))
          | ok config ↦
              (ok config.callback_config, (remember biz_id config.callback_config cache, s'))
        ]
  ]

  unfoldable pub send_callback : Notification → Effect (State S) Bool
  unfolding get_config build_request
  send_callback n st =
      let (config, (cache, s)) = get_config n.biz_id st in
      elim config [
        | err e ↦ (err e, (cache, s))
        | ok none ↦ (err (Sentinel.config_not_found ∷ []), (cache, s))
        | ok (some cfg) ↦
            let (answer, s') = services.handle cfg.service_name (build_request n) s in
            (answer, (cache, s'))
      ]

  -- the part of sendCallbackAndSetChangedFields for an answer without success
  unfoldable pub retry : (ℤ → Duration) → CallbackLog → State S → Option CallbackLog × State S
  unfolding get_config strategy_of retried
  retry overflow log st =
      let (config, (cache, s)) = get_config log.notification.biz_id st in
      elim (strategy_of config) [
        | none ↦ (none, (cache, s))
        | some strategy ↦
            let (now, s') = services.now s in
            (
              some (retried now (next_with_retries overflow strategy log.retry_count) log),
              (cache, s'),
            )
      ]

  -- the log, or the error on which it is left as it was; `none` is a panic
  unfoldable pub send_callback_and_set_changed_fields :
      (ℤ → Duration) → CallbackLog → State S → Option (Result CallbackLog) × State S
  unfolding send_callback retry
  send_callback_and_set_changed_fields overflow log st =
      let (answer, st') = send_callback log.notification st in
      elim answer [
        | err e ↦ (some (err e), st')
        | ok true ↦ (some (ok (record log { status = succeeded })), st')
        | ok false ↦ let (log', st'') = retry overflow log st' in (Option.map ok log', st'')
      ]

  -- the loop of sendCallbackAndUpdateCallBackLogs: the logs to update
  unfoldable pub send_each :
      (ℤ → Duration) → List CallbackLog → State S → Option (List CallbackLog) × State S
  unfolding send_callback_and_set_changed_fields
  send_each overflow [] st = (some [], st)
  send_each overflow (log ∷ logs) st =
      let (changed, st') = send_callback_and_set_changed_fields overflow log st in
      let (rest, st'') = send_each overflow logs st' in
      elim changed [
        | none ↦ (none, st')
        | some (err _) ↦ (rest, st'')
        | some (ok log') ↦ (Option.map (λ ls. log' ∷ ls) rest, st'')
      ]

  unfoldable pub send_callback_and_update_callback_logs :
      (ℤ → Duration) → List CallbackLog → State S → Option (Result (Unit {0})) × State S
  unfolding send_each
  send_callback_and_update_callback_logs overflow logs st =
      let (changed, (cache, s)) = send_each overflow logs st in
      elim changed [
        | none ↦ (none, (cache, s))
        | some need_update ↦
            let (updated, s') = services.update need_update s in (some updated, (cache, s'))
      ]

  unfoldable pub send_callback_by_notification :
      (ℤ → Duration) → Notification → State S → Option (Result (Unit {0})) × State S
  unfolding send_callback_and_update_callback_logs
  send_callback_by_notification overflow n (cache, s) =
      let (logs, s') = services.find_by_notification_ids (n.id ∷ []) s in
      elim logs [
        | err e ↦ (some (err e), (cache, s'))
        | ok ls ↦ send_callback_and_update_callback_logs overflow ls (cache, s')
      ]

  -- The pages of SendCallback, on fuel: `none` is a panic, or no end within it.
  unfoldable pub send_pages :
      ℕ → (ℤ → Duration) → ℤ → ℤ → ℤ → State S → Option (Result (Unit {0})) × State S
  send_pages zero overflow start_time batch_size next_start_id st = (none, st)
  send_pages (suc fuel) overflow start_time batch_size next_start_id (cache, s) =
      let (page, s') = services.find start_time batch_size next_start_id s in
      elim page [
        | err e ↦ (some (err e), (cache, s'))
        | ok ([], _) ↦ (some (ok tt), (cache, s'))
        | ok (log ∷ logs, next) ↦
            let (updated, st') =
              send_callback_and_update_callback_logs overflow (log ∷ logs) (cache, s') in
            elim updated [
              | none ↦ (none, st')
              | some (err e) ↦ (some (err e), st')
              | some (ok _) ↦ send_pages fuel overflow start_time batch_size next st'
            ]
      ]

  unfoldable pub send_callback_pages :
      ℕ → (ℤ → Duration) → ℤ → ℤ → State S → Option (Result (Unit {0})) × State S
  unfolding send_pages
  send_callback_pages fuel overflow start_time batch_size st =
      send_pages fuel overflow start_time batch_size (pos 0) st

  -- the last loop of SendCallbackByNotifications, with the variable `er`
  unfoldable pub send_rest :
      List Notification → Result (Unit {0}) → State S → Result (Unit {0}) × State S
  unfolding send_callback
  send_rest [] er st = (er, st)
  send_rest (n ∷ ns) er st =
      let (answer, st') = send_callback n st in send_rest ns (error_only answer) st'

  -- the part after the logs are found, if there are fewer or more of them than notifications;
  -- `order` is the order in which the map is iterated
  unfoldable pub send_unlogged :
      (List Notification → List Notification)
      → (ℤ → Duration)
      → List CallbackLog
      → List Notification
      → State S
      → Option (Result (Unit {0})) × State S
  unfolding send_callback_and_update_callback_logs by_id delete_logged send_rest
  send_unlogged order overflow logs ns st =
      let unlogged = order (delete_logged logs (by_id ns [])) in
      let (updated, st') =
        if is_empty logs
        then (some (ok tt), st)
        else send_callback_and_update_callback_logs overflow logs st in
      elim updated [
        | none ↦ (none, st')
        | some er ↦ let (result, st'') = send_rest unlogged er st' in (some result, st'')
      ]

  unfoldable pub send_callback_by_notifications :
      (List Notification → List Notification)
      → (ℤ → Duration)
      → List Notification
      → State S
      → Option (Result (Unit {0})) × State S
  unfolding send_unlogged
  send_callback_by_notifications order overflow ns (cache, s) =
      let (found, s') = services.find_by_notification_ids (map (λ n. Notification.id n) ns) s in
      elim found [
        | err e ↦ (some (err e), (cache, s'))
        | ok logs ↦
            if length logs == length ns
            then send_callback_and_update_callback_logs overflow logs (cache, s')
            else send_unlogged order overflow logs ns (cache, s')
      ]
