-- ===== src/Templates/Entities.antt =====
-- internal/repository/dao/template.go and internal/repository/template.go: the rows of the three tables
-- of templates, and their conversions. A text column with constants is the domain's data type of it.
use Prim.Native.String.{String}
use go_notification.Prelude.{[], ℤ, pos}
use go_notification.Domain.Notification.{Channel}
use go_notification.Domain.Template.{
  AuditStatus, OwnerType, ChannelTemplate, ChannelTemplateVersion, ChannelTemplateProvider,
}

pub record TemplateRow : Type 0 where
  pub id : ℤ
  pub owner_id : ℤ
  pub owner_type : OwnerType
  pub name : String
  pub description : String
  pub channel : Channel
  pub business_type : ℤ
  pub active_version_id : ℤ
  pub ctime : ℤ
  pub utime : ℤ

pub record VersionRow : Type 0 where
  pub id : ℤ
  pub channel_template_id : ℤ
  pub name : String
  pub signature : String
  pub content : String
  pub remark : String
  pub audit_id : ℤ
  pub auditor_id : ℤ
  pub audit_time : ℤ
  pub audit_status : AuditStatus
  pub reject_reason : String
  pub last_review_submission_time : ℤ
  pub ctime : ℤ
  pub utime : ℤ

pub record ProviderRow : Type 0 where
  pub id : ℤ
  pub template_id : ℤ
  pub template_version_id : ℤ
  pub provider_id : ℤ
  pub provider_name : String
  pub provider_channel : Channel
  pub request_id : String
  pub provider_template_id : String
  pub audit_status : AuditStatus
  pub reject_reason : String
  pub last_review_submission_time : ℤ
  pub ctime : ℤ
  pub utime : ℤ

unfoldable pub to_provider_domain : ProviderRow → ChannelTemplateProvider
to_provider_domain p = record {
  id = p.id;
  template_id = p.template_id;
  template_version_id = p.template_version_id;
  provider_id = p.provider_id;
  provider_name = p.provider_name;
  provider_channel = p.provider_channel;
  request_id = p.request_id;
  provider_template_id = p.provider_template_id;
  audit_status = p.audit_status;
  reject_reason = p.reject_reason;
  last_review_submission_time = p.last_review_submission_time;
  ctime = p.ctime;
  utime = p.utime;
}

unfoldable pub to_provider_entity : ChannelTemplateProvider → ProviderRow
to_provider_entity p = record {
  id = p.id;
  template_id = p.template_id;
  template_version_id = p.template_version_id;
  provider_id = p.provider_id;
  provider_name = p.provider_name;
  provider_channel = p.provider_channel;
  request_id = p.request_id;
  provider_template_id = p.provider_template_id;
  audit_status = p.audit_status;
  reject_reason = p.reject_reason;
  last_review_submission_time = p.last_review_submission_time;
  ctime = pos 0;
  utime = pos 0;
}

unfoldable pub to_version_domain : VersionRow → ChannelTemplateVersion
to_version_domain v = record {
  id = v.id;
  channel_template_id = v.channel_template_id;
  name = v.name;
  signature = v.signature;
  content = v.content;
  remark = v.remark;
  audit_id = v.audit_id;
  auditor_id = v.auditor_id;
  audit_time = v.audit_time;
  audit_status = v.audit_status;
  reject_reason = v.reject_reason;
  last_review_submission_time = v.last_review_submission_time;
  ctime = v.ctime;
  utime = v.utime;
  providers = [];
}

-- the audit's ID is taken from the auditor's
unfoldable pub to_version_entity : ChannelTemplateVersion → VersionRow
to_version_entity v = record {
  id = v.id;
  channel_template_id = v.channel_template_id;
  name = v.name;
  signature = v.signature;
  content = v.content;
  remark = v.remark;
  audit_id = v.auditor_id;
  auditor_id = v.auditor_id;
  audit_time = v.audit_time;
  audit_status = v.audit_status;
  reject_reason = v.reject_reason;
  last_review_submission_time = v.last_review_submission_time;
  ctime = pos 0;
  utime = pos 0;
}

unfoldable pub to_template_domain : TemplateRow → ChannelTemplate
to_template_domain t = record {
  id = t.id;
  owner_id = t.owner_id;
  owner_type = t.owner_type;
  name = t.name;
  description = t.description;
  channel = t.channel;
  business_type = t.business_type;
  active_version_id = t.active_version_id;
  ctime = t.ctime;
  utime = t.utime;
  versions = [];
}

unfoldable pub to_template_entity : ChannelTemplate → TemplateRow
to_template_entity t = record {
  id = t.id;
  owner_id = t.owner_id;
  owner_type = t.owner_type;
  name = t.name;
  description = t.description;
  channel = t.channel;
  business_type = t.business_type;
  active_version_id = t.active_version_id;
  ctime = pos 0;
  utime = pos 0;
}
