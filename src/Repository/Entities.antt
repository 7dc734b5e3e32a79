-- ===== src/Repository/Entities.antt =====
-- internal/repository/notification.go (toEntity, toDomain): a notification and its row. JSON is the
-- parameter `Json`; the errors of both directions are ignored by the code, which then has the text or
-- the value that the library returned beside the error.
use Prim.Native.String.{String}
use go_notification.Prelude.{List, ℤ, pos, ◌+ℤ◌, ◌*ℤ◌, Instant}
use go_notification.Domain.Strategy.{SendStrategyConfig, other_strategy}
use go_notification.Domain.Notification.{Notification, Channel, SendStatus, unix, zero_time}
use go_notification.Domain.Tx.{unix_milli}

pub record Json : Type 0 where
  pub marshal_params : List (String × String) → String
  pub unmarshal_params : String → List (String × String)
  pub marshal_receivers : List String → String
  pub unmarshal_receivers : String → List String

-- dao.Notification; Channel and SendStatus are the strings of the columns
pub record Entity : Type 0 where
  pub id : ℤ
  pub biz_id : ℤ
  pub key : String
  pub receivers : String
  pub channel : Channel
  pub template_id : ℤ
  pub template_version_id : ℤ
  pub template_params : String
  pub status : SendStatus
  pub scheduled_stime : ℤ
  pub scheduled_etime : ℤ
  pub version : ℤ

-- the zero value of the configuration
abbrev pub no_strategy : SendStrategyConfig
no_strategy = record {
  type_of = other_strategy "";
  delay = pos 0;
  schedule_time = zero_time;
  start_time = zero_time;
  end_time = zero_time;
  deadline_time = zero_time;
}

-- `time.UnixMilli`
abbrev pub of_unix_milli : ℤ → Instant
of_unix_milli ms = ms *ℤ pos 1000000 +ℤ unix (pos 0)

unfoldable pub to_entity : Json → Notification → Entity
to_entity json n = record {
  id = n.id;
  biz_id = n.biz_id;
  key = n.key;
  receivers = json.marshal_receivers n.receivers;
  channel = n.channel;
  template_id = n.template.id;
  template_version_id = n.template.version_id;
  template_params = json.marshal_params n.template.params;
  status = n.status;
  scheduled_stime = unix_milli n.scheduled_stime;
  scheduled_etime = unix_milli n.scheduled_etime;
  version = n.version;
}

unfoldable pub to_domain : Json → Entity → Notification
to_domain json e = record {
  id = e.id;
  biz_id = e.biz_id;
  key = e.key;
  receivers = json.unmarshal_receivers e.receivers;
  channel = e.channel;
  template = record {
    id = e.template_id;
    version_id = e.template_version_id;
    params = json.unmarshal_params e.template_params;
    version = pos 0;
  };
  status = e.status;
  scheduled_stime = of_unix_milli e.scheduled_stime;
  scheduled_etime = of_unix_milli e.scheduled_etime;
  version = e.version;
  send_strategy_config = no_strategy;
}
