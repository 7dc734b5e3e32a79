-- ===== src/Domain/Notification.antt =====
-- internal/domain/notification.go and internal/domain/provider.go (Channel): a notification, its
-- validation, and its construction from an API request.
use Prim.Native.String.{String}
use text.Mathlib.Text.{◌==◌ as ◌=ˢ◌}
use go_notification.Prelude.{
  ◌*◌, Bool, true, false, not, List, [], ◌∷◌, Option, none, some, ℤ, pos, ◌+ℤ◌, ◌*ℤ◌, wrap64, ltb_ℤ,
  leb_ℤ, Instant, if◌then◌else◌,
}
use go_notification.Errs.{Result, ok, err, guard, ◌>>=◌, ◌>>◌}
use go_notification.Domain.Strategy
use go_notification.Domain.Strategy.{
  SendStrategyType, SendStrategyConfig, second, send_time_window, invalid, immediate, delayed,
  scheduled, window, deadline,
}

pub data Channel : Type 0 where
  sms email in_app : Channel
  other_channel : String → Channel

abbrev pub is_valid : Channel → Bool
is_valid (other_channel _) = false
is_valid _ = true

pub data SendStatus : Type 0 where
  prepare canceled pending sending succeeded failed : SendStatus
  other_status : String → SendStatus

-- `params` lists the entries of the map; a nil map has none.
pub record Template : Type 0 where
  pub id : ℤ
  pub version_id : ℤ
  pub params : List (String × String)
  pub version : ℤ

pub record Notification : Type 0 where
  pub id : ℤ
  pub biz_id : ℤ
  pub key : String
  pub receivers : List String
  pub channel : Channel
  pub template : Template
  pub status : SendStatus
  pub scheduled_stime : Instant
  pub scheduled_etime : Instant
  pub version : ℤ
  pub send_strategy_config : SendStrategyConfig

abbrev pub is_immediate_type : SendStrategyType → Bool
is_immediate_type immediate = true
is_immediate_type _ = false

abbrev pub is_immediate : Notification → Bool
is_immediate n = is_immediate_type n.send_strategy_config.type_of

unfoldable pub set_send_time : Instant → Notification → Notification
set_send_time now n =
    let (stime, etime) = send_time_window now n.send_strategy_config in
    record n { scheduled_stime = stime; scheduled_etime = etime }

-- an immediate strategy becomes a deadline in a minute
unfoldable pub replace_async_immediate : Instant → Notification → Notification
replace_async_immediate now n =
    if is_immediate n
    then record n {
      send_strategy_config = record (n.send_strategy_config) {
        deadline_time = now +ℤ pos (60 * second);
        type_of = deadline;
      };
    }
    else n

abbrev pub is_empty {ℓ} : {A : Type ℓ} → List A → Bool
is_empty [] = true
is_empty (_ ∷ _) = false

unfoldable pub validate : Instant → Notification → Result (Unit {0})
validate now n = do
  guard (leb_ℤ n.biz_id (pos 0)) invalid
  guard (n.key =ˢ "") invalid
  guard (is_empty n.receivers) invalid
  guard (not (is_valid n.channel)) invalid
  guard (leb_ℤ n.template.id (pos 0)) invalid
  guard (leb_ℤ n.template.version_id (pos 0)) invalid
  guard (is_empty n.template.params) invalid
  Strategy.validate now n.send_strategy_config

-- the Go zero value of a `time.Time`, and the instant of `time.Unix(seconds, 0)`
abbrev pub zero_time : Instant
zero_time = pos 0

abbrev pub unix : ℤ → Instant
unix seconds = pos (62135596800 * second) +ℤ seconds *ℤ pos second

-- The `oneof` of a request's strategy: the message of a case may be nil, and so may a time in it.
pub data StrategyMessage : Type 0 where
  no_case : StrategyMessage
  immediate_case : StrategyMessage
  delayed_case : Option ℤ → StrategyMessage
  scheduled_case : Option (Option Instant) → StrategyMessage
  time_window_case : Option (ℤ × ℤ) → StrategyMessage
  deadline_case : Option (Option Instant) → StrategyMessage

abbrev pub default_config : SendStrategyConfig
default_config = record {
  type_of = immediate;
  delay = pos 0;
  schedule_time = zero_time;
  start_time = unix (pos 0);
  end_time = unix (pos 0);
  deadline_time = zero_time;
}

unfoldable pub get_domain_send_strategy_config : Option StrategyMessage → SendStrategyConfig
get_domain_send_strategy_config none = default_config
get_domain_send_strategy_config (some no_case) = default_config
get_domain_send_strategy_config (some immediate_case) = default_config
get_domain_send_strategy_config (some (delayed_case none)) = default_config
get_domain_send_strategy_config (some (delayed_case (some delay_seconds))) =
    if ltb_ℤ (pos 0) delay_seconds
    then record default_config { type_of = delayed; delay = wrap64 (delay_seconds *ℤ pos second) }
    else default_config
get_domain_send_strategy_config (some (scheduled_case (some (some time)))) = record default_config {
  type_of = scheduled;
  schedule_time = time;
}
get_domain_send_strategy_config (some (scheduled_case _)) = default_config
get_domain_send_strategy_config (some (time_window_case none)) = default_config
get_domain_send_strategy_config (some (time_window_case (some (start_ms, end_ms)))) =
    record default_config { type_of = window; start_time = unix start_ms; end_time = unix end_ms }
get_domain_send_strategy_config (some (deadline_case (some (some time)))) = record default_config {
  type_of = deadline;
  deadline_time = time;
}
get_domain_send_strategy_config (some (deadline_case _)) = default_config

-- the channel enum of a request
pub data ApiChannel : Type 0 where
  channel_unspecified sms_channel email_channel in_app_channel : ApiChannel

unfoldable pub get_domain_channel : ApiChannel → Result Channel
get_domain_channel sms_channel = ok sms
get_domain_channel email_channel = ok email
get_domain_channel in_app_channel = ok in_app
get_domain_channel channel_unspecified = err invalid

-- a request's notification; `template_id` is what `strconv.ParseInt` makes of the text, if anything
pub record ApiNotification : Type 0 where
  pub key : String
  pub receivers : List String
  pub channel : ApiChannel
  pub template_id : Option ℤ
  pub template_params : List (String × String)
  pub send_strategy : Option StrategyMessage

abbrev pub parsed : Option ℤ → Result ℤ
parsed none = err invalid
parsed (some id) = ok id

unfoldable pub new_notification_from_api : Option ApiNotification → Result Notification
new_notification_from_api none = err invalid
new_notification_from_api (some n) = do
  tid ← parsed n.template_id
  channel ← get_domain_channel n.channel
  ok (record {
    id = pos 0;
    biz_id = pos 0;
    key = n.key;
    receivers = n.receivers;
    channel = channel;
    template = record { id = tid; version_id = pos 0; params = n.template_params; version = pos 0 };
    status = other_status "";
    scheduled_stime = zero_time;
    scheduled_etime = zero_time;
    version = pos 0;
    send_strategy_config = get_domain_send_strategy_config n.send_strategy;
  })
