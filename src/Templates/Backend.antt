-- ===== src/Templates/Backend.antt =====
-- What the service of templates calls: the repository of templates, the service of providers, the
-- audits, the clients of the SMS vendors, the clock and JSON.
use Prim.Native.String.{String}
use go_notification.Prelude.{ℤ, List, Option}
use go_notification.Errs.{Result}
use go_notification.Effect.{Effect}
use go_notification.Sharding.{Bytes}
use go_notification.Domain.Notification.{Channel}
use go_notification.Domain.Provider.{Provider}
use go_notification.Domain.Template.{
  OwnerType, ChannelTemplate, ChannelTemplateVersion, ChannelTemplateProvider,
}

-- repository.ChannelTemplateRepository
pub record TemplateRepository {ℓ} (S : Type ℓ) : Type ℓ where
  pub get_templates_by_owner : ℤ → OwnerType → Effect S (List ChannelTemplate)
  pub get_template_by_id : ℤ → Effect S ChannelTemplate
  pub create_template : ChannelTemplate → Effect S ChannelTemplate
  pub update_template : ChannelTemplate → Effect S (Unit {0})
  pub set_template_active_version : ℤ → ℤ → Effect S (Unit {0})
  pub get_template_version_by_id : ℤ → Effect S ChannelTemplateVersion
  pub create_template_version : ChannelTemplateVersion → Effect S ChannelTemplateVersion
  pub fork_template_version : ℤ → Effect S ChannelTemplateVersion
  pub get_provider_by_name_and_channel :
      ℤ → ℤ → String → Channel → Effect S (List ChannelTemplateProvider)
  pub batch_create_template_providers :
      List ChannelTemplateProvider → Effect S (List ChannelTemplateProvider)
  pub get_approved_providers : ℤ → ℤ → Effect S (List ChannelTemplateProvider)
  pub get_providers : ℤ → ℤ → Effect S (List ChannelTemplateProvider)
  pub update_template_version : ChannelTemplateVersion → Effect S (Unit {0})
  pub batch_update_version_audit : List ChannelTemplateVersion → Effect S (Unit {0})
  pub update_provider_audit : ChannelTemplateProvider → Effect S (Unit {0})
  pub batch_update_providers_audit : List ChannelTemplateProvider → Effect S (Unit {0})
  pub get_pending_or_in_review : ℤ → ℤ → ℤ → Effect S (List ChannelTemplateProvider × ℤ)

-- domain.AuditContent
pub record AuditContent : Type 0 where
  pub owner_id : ℤ
  pub owner_type : OwnerType
  pub name : String
  pub description : String
  pub channel : Channel
  pub business_type : String
  pub version : String
  pub signature : String
  pub content : String
  pub remark : String
  pub provider_names : List String

-- domain.Audit, of a template
pub record Audit : Type 0 where
  pub resource_id : ℤ
  pub content : String

-- client.CreateTemplateReq, with the code points of the content
pub record CreateTemplateReq : Type 0 where
  pub template_name : String
  pub template_content : Bytes
  pub template_type : ℤ
  pub remark : String

pub record CreateTemplateResp : Type 0 where
  pub request_id : String
  pub template_id : String

-- a result of client.BatchQueryTemplateStatusResp
pub record TemplateStatus : Type 0 where
  pub request_id : String
  pub template_id : String
  pub audit_status : ℤ
  pub reason : String

pub record Client {ℓ} (S : Type ℓ) : Type ℓ where
  pub create : CreateTemplateReq → Effect S CreateTemplateResp
  pub batch_query : List String → Effect S (List TemplateStatus)

pub record TemplateServices {ℓ} (S : Type ℓ) : Type ℓ where
  pub repo : TemplateRepository S
  pub get_by_channel : Channel → Effect S (List Provider)
  pub create_audit : Audit → Effect S ℤ
  pub sms_client : String → Option (Client S)
  pub now_unix : S → ℤ × S
  pub marshal : AuditContent → Result String
