-- ===== src/Templates/Tests.antt =====
-- A database of one approved version that refuses unknown columns, and the theorems about it.
use go_notification.Prelude.{◌≡◌, ◌≢◌, Bool, true, false, [], ◌∷◌, none, some, pos, if◌then◌else◌}
use go_notification.Errs.{Result, ok, err, failure, Refuses}
use go_notification.Domain.Notification.{sms}
use go_notification.Domain.Template.{approved, person}
use go_notification.Templates.Backend.{TemplateServices}
use go_notification.Templates.Entities.{TemplateRow, VersionRow, ProviderRow, to_template_domain}
use go_notification.Templates.Dao.{TemplateDatabase, Table, Columns}
use go_notification.Templates.Repository.{with_versions, versions_by_template, template_repository}
use go_notification.Templates.Grouping.{with_versions-select, versions_of}
use go_notification.Templates.Manage.{publish_template}
use go_notification.Templates.Publishing.{IsPublished, publish_template-IsPublished}
use go_notification.Templates.Refused.{
  RefusesUnknown, any_unknown, columns_of, over_database, publish_template-refused,
}

abbrev welcome : TemplateRow
welcome = record {
  id = pos 1;
  owner_id = pos 9;
  owner_type = person;
  name = "welcome";
  description = "greets";
  channel = sms;
  business_type = pos 2;
  active_version_id = pos 0;
  ctime = pos 0;
  utime = pos 0;
}

abbrev first_text : VersionRow
first_text = record {
  id = pos 2;
  channel_template_id = pos 1;
  name = "v1";
  signature = "us";
  content = "hello ${name}";
  remark = "greeting";
  audit_id = pos 5;
  auditor_id = pos 6;
  audit_time = pos 7;
  audit_status = approved;
  reject_reason = "";
  last_review_submission_time = pos 4;
  ctime = pos 3;
  utime = pos 3;
}

abbrev vendor : ProviderRow
vendor = record {
  id = pos 8;
  template_id = pos 1;
  template_version_id = pos 2;
  provider_id = pos 11;
  provider_name = "aliyun";
  provider_channel = sms;
  request_id = "";
  provider_template_id = "";
  audit_status = approved;
  reject_reason = "";
  last_review_submission_time = pos 0;
  ctime = pos 0;
  utime = pos 0;
}

abbrev strict_update : Table → Columns → Result (Unit {0})
strict_update table columns =
    if any_unknown (columns_of table) columns then err (failure 1) else ok tt

abbrev strict_database : TemplateDatabase (Unit {0})
strict_database = record {
  now_milli = λ s. (pos 3, s);
  select_templates = λ c s. (ok (welcome ∷ []), s);
  first_template = λ c s. (ok (some welcome), s);
  insert_template = λ row s. (ok row, s);
  select_versions = λ c s. (ok (first_text ∷ []), s);
  first_version = λ c s. (ok (some first_text), s);
  insert_version = λ row s. (ok row, s);
  select_providers = λ c s. (ok (vendor ∷ []), s);
  select_page = λ c offset limit s. (ok (vendor ∷ []), s);
  count_providers = λ c s. (ok (pos 1), s);
  insert_providers = λ rows s. (ok rows, s);
  update = λ table c columns s. (strict_update table columns, s);
  rollback = λ before s. before;
}

Refuses-by_test :
    (test : Bool) → test ≡ true → Refuses {A = Unit {0}} (if test then err (failure 1) else ok tt)
Refuses-by_test true h = tt
Refuses-by_test false h = cc

strict_database-RefusesUnknown : RefusesUnknown strict_database
strict_database-RefusesUnknown table c columns s h =
    Refuses-by_test (any_unknown (columns_of table) columns) h

abbrev desk : TemplateServices (Unit {0})
desk = record {
  repo = template_repository strict_database;
  get_by_channel = λ c s. (ok [], s);
  create_audit = λ a s. (ok (pos 1), s);
  sms_client = λ name. none;
  now_unix = λ s. (pos 1, s);
  marshal = λ content. ok "{}";
}

-- an approved version of its template, with an approved association
publish_template-refused_example :
    (publish_template
      (over_database strict_database desk strict_database-RefusesUnknown)
      (pos 1)
      (pos 2)
      tt).0
    ≢ ok tt
publish_template-refused_example =
    publish_template-refused strict_database desk strict_database-RefusesUnknown (pos 1) (pos 2) tt

-- a database without columns to refuse
abbrev lenient : TemplateServices (Unit {0})
lenient = record desk {
  repo = template_repository (record strict_database { update = λ table c columns s. (ok tt, s) });
}

publish_template-IsPublished_example :
    IsPublished lenient (pos 1) (pos 2) tt (publish_template lenient (pos 1) (pos 2) tt)
publish_template-IsPublished_example = publish_template-IsPublished lenient (pos 1) (pos 2) tt

with_versions-select_example :
    with_versions (versions_by_template (first_text ∷ []) (vendor ∷ [])) welcome
    ≡ record (to_template_domain welcome) {
      versions = versions_of (first_text ∷ []) (vendor ∷ []) (pos 1);
    }
with_versions-select_example = with_versions-select welcome (first_text ∷ []) (vendor ∷ [])
