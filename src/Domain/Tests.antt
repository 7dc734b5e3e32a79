-- ===== src/Domain/Tests.antt =====
-- Concrete values of internal/domain, and the theorems about them.
use go_notification.Prelude.{◌≡◌, ◌↔◌, ◌⊎◌, [], ◌∷◌, pos}
use go_notification.Errs.{ok, err}
use go_notification.Domain.Strategy
use go_notification.Domain.Strategy.{SendStrategyConfig, invalid, scheduled, delayed}
use go_notification.Domain.Notification
use go_notification.Domain.Notification.{Notification, default_config, zero_time, email, pending}
use go_notification.Domain.Provider
use go_notification.Domain.Template.{
  ChannelTemplate, ChannelTemplateVersion, ChannelTemplateProvider, approved, person,
}
use go_notification.Domain.Windows.{WellFormed, validate_iff}

abbrev at_noon : SendStrategyConfig
at_noon = record default_config { type_of = scheduled; schedule_time = pos 43200000000000 }

abbrev pub greeting : Notification
greeting = record {
  id = pos 0;
  biz_id = pos 7;
  key = "k1";
  receivers = "someone" ∷ [];
  channel = email;
  template = record {
    id = pos 3;
    version_id = pos 4;
    params = ("name", "someone") ∷ [];
    version = pos 0;
  };
  status = pending;
  scheduled_stime = zero_time;
  scheduled_etime = zero_time;
  version = pos 0;
  send_strategy_config = at_noon;
}

abbrev relay : Provider.Provider
relay = record {
  id = pos 5;
  name = "relay";
  channel = email;
  endpoint = "localhost";
  region_id = "";
  api_key = "a";
  api_secret = "b";
  app_id = "";
  weight = pos 1;
  qps_limit = pos 10;
  daily_limit = pos 100;
  audit_callback_url = "";
  status = Provider.active;
}

abbrev relay_of_version : ChannelTemplateProvider
relay_of_version = record {
  id = pos 8;
  template_id = pos 3;
  template_version_id = pos 4;
  provider_id = pos 5;
  provider_name = "relay";
  provider_channel = email;
  request_id = "";
  provider_template_id = "t";
  audit_status = approved;
  reject_reason = "";
  last_review_submission_time = pos 0;
  ctime = pos 0;
  utime = pos 0;
}

abbrev second_version : ChannelTemplateVersion
second_version = record {
  id = pos 4;
  channel_template_id = pos 3;
  name = "two";
  signature = "";
  content = "hello";
  remark = "";
  audit_id = pos 0;
  auditor_id = pos 0;
  audit_time = pos 0;
  audit_status = approved;
  reject_reason = "";
  last_review_submission_time = pos 0;
  ctime = pos 0;
  utime = pos 0;
  providers = relay_of_version ∷ [];
}

abbrev pub greeting_template : ChannelTemplate
greeting_template = record {
  id = pos 3;
  owner_id = pos 9;
  owner_type = person;
  name = "greeting";
  description = "says hello";
  channel = email;
  business_type = pos 2;
  active_version_id = pos 4;
  ctime = pos 0;
  utime = pos 0;
  versions = record second_version { id = pos 1; providers = [] } ∷ second_version ∷ [];
}

validate_iff_example :
    ((Notification.validate (pos 0) greeting ≡ ok tt) ↔ WellFormed (pos 0) greeting)
    × ((Notification.validate (pos 0) greeting ≡ ok tt)
        ⊎ (Notification.validate (pos 0) greeting ≡ err invalid))
validate_iff_example = validate_iff (pos 0) greeting

abbrev soon : SendStrategyConfig
soon = record (greeting.send_strategy_config) { type_of = delayed; delay = pos 5 }
