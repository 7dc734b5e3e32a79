-- ===== src/Templates/Manage.antt =====
-- internal/service/template/manage/manage.go: templates and their versions, up to the internal review.
use Prim.Native.String.{String}
use text.Mathlib.Text.{◌==◌ as ◌=ˢ◌}
use go_notification.Prelude.{
  Bool, true, false, not, List, [], ◌∷◌, map, ℤ, pos, leb_ℤ, eqb_ℤ, if◌then◌else◌,
}
use go_notification.Errs.{Err, Sentinel, ok, err}
use go_notification.Effect.{Effect, pure, lift, wrap, ◌>>=◌, ◌>>◌}
use go_notification.Domain.Notification.{Channel, is_empty}
use go_notification.Domain.Provider.{Provider}
use go_notification.Domain.Strategy.{invalid}
use go_notification.Domain.Template.{
  AuditStatus, pending, in_review, rejected, approved, other_audit_status, OwnerType,
  is_valid_owner, is_valid_business, is_approved, BusinessType, ChannelTemplate,
  ChannelTemplateVersion, ChannelTemplateProvider, validate,
}
use go_notification.Templates.Backend.{TemplateServices, AuditContent}

-- an error under the sentinel of the operation: fmt.Errorf("%w: %w", …)
abbrev pub under : Sentinel → Err → Err
under s e = s ∷ e

-- a test of the arguments before a call
abbrev pub require {ℓ} : {S : Type ℓ} → Bool → Err → Effect S (Unit {0})
require test e = lift (if test then ok tt else err e)

-- the zero value of an audit status is the empty text
abbrev pub no_status : AuditStatus
no_status = other_audit_status ""

abbrev pub empty_version : ChannelTemplateVersion
empty_version = record {
  id = pos 0;
  channel_template_id = pos 0;
  name = "";
  signature = "";
  content = "";
  remark = "";
  audit_id = pos 0;
  auditor_id = pos 0;
  audit_time = pos 0;
  audit_status = no_status;
  reject_reason = "";
  last_review_submission_time = pos 0;
  ctime = pos 0;
  utime = pos 0;
  providers = [];
}

abbrev pub first_version : ℤ → ChannelTemplateVersion
first_version template_id = record empty_version {
  channel_template_id = template_id;
  name = "版本名称，比如v1.0.0";
  signature = "提前配置好的可用的短信签名或者Email收件人";
  content = "模版变量使用${code}格式，也可以没有变量";
  remark = "模版使用场景或者用途说明，有利于供应商审核通过";
}

abbrev pub association : ℤ → ℤ → Provider → ChannelTemplateProvider
association template_id version_id p = record {
  id = pos 0;
  template_id = template_id;
  template_version_id = version_id;
  provider_id = p.id;
  provider_name = p.name;
  provider_channel = p.channel;
  request_id = "";
  provider_template_id = "";
  audit_status = no_status;
  reject_reason = "";
  last_review_submission_time = pos 0;
  ctime = pos 0;
  utime = pos 0;
}

-- the statuses in which a version may be changed, and those in which it is not submitted again
abbrev pub is_pending_or_rejected : AuditStatus → Bool
is_pending_or_rejected pending = true
is_pending_or_rejected rejected = true
is_pending_or_rejected _ = false

abbrev pub is_in_review_or_approved : AuditStatus → Bool
is_in_review_or_approved in_review = true
is_in_review_or_approved approved = true
is_in_review_or_approved _ = false

-- BusinessType.String
unfoldable pub business_text : BusinessType → String
business_text b =
    if eqb_ℤ b (pos 1)
    then "推广营销"
    else if eqb_ℤ b (pos 2)
    then "通知"
    else if eqb_ℤ b (pos 3)
    then "验证码"
    else "未知类型"

-- getJSONAuditContent, before it is encoded
unfoldable pub audit_content :
    ChannelTemplate → ChannelTemplateVersion → List ChannelTemplateProvider → AuditContent
unfolding business_text
audit_content t v ps = record {
  owner_id = t.owner_id;
  owner_type = t.owner_type;
  name = t.name;
  description = t.description;
  channel = t.channel;
  business_type = business_text t.business_type;
  version = v.name;
  signature = v.signature;
  content = v.content;
  remark = v.remark;
  provider_names = map (λ p. ChannelTemplateProvider.provider_name p) ps;
}

module _ {ℓ} {S : Type ℓ} (t : TemplateServices S) where
  unfoldable pub get_templates_by_owner : ℤ → OwnerType → Effect S (List ChannelTemplate)
  get_templates_by_owner owner_id owner_type =
      require (not (leb_ℤ owner_id (pos 0))) invalid
      >> (require (is_valid_owner owner_type) invalid
          >> t.repo.get_templates_by_owner owner_id owner_type)

  unfoldable pub get_template_by_id_and_provider_info :
      ℤ → String → Channel → Effect S ChannelTemplate
  get_template_by_id_and_provider_info template_id provider_name channel =
      t.repo.get_template_by_id template_id >>= λ template.
      require (not (eqb_ℤ template.id (pos 0))) (Sentinel.template_not_found ∷ [])
      >> (t.repo.get_template_version_by_id template.active_version_id >>= λ version.
          require (is_approved version.audit_status)
            (Sentinel.template_version_not_approved_by_platform ∷ [])
          >> (t.repo.get_provider_by_name_and_channel template_id version.id provider_name channel
              >>= λ providers.
                  require (not (is_empty providers)) (Sentinel.template_not_found ∷ [])
                  >> pure (record template {
                    versions = record version { providers = providers } ∷ [];
                  })))

  unfoldable pub get_template_by_id : ℤ → Effect S ChannelTemplate
  get_template_by_id template_id = t.repo.get_template_by_id template_id

  -- the associations of a new version with the providers of the channel
  unfoldable pub create_providers :
      ChannelTemplate → ℤ → ℤ → Effect S (List ChannelTemplateProvider)
  create_providers template template_id version_id =
      wrap (under Sentinel.create_template_failed) (t.get_by_channel template.channel)
      >>= λ providers.
          require (not (is_empty providers)) (Sentinel.create_template_failed ∷ [])
          >> wrap (under Sentinel.create_template_failed) (
              t.repo.batch_create_template_providers
                (map (association template_id version_id) providers))

  unfoldable pub create_template : ChannelTemplate → Effect S ChannelTemplate
  unfolding validate create_providers
  create_template template =
      lift (validate template)
      >> (wrap (under Sentinel.create_template_failed)
            (t.repo.create_template (record template { active_version_id = pos 0 }))
          >>= λ created.
              wrap (under Sentinel.create_template_failed)
                (t.repo.create_template_version (first_version created.id))
              >>= λ version. create_providers template created.id version.id >>= λ providers.
                  pure
                    (record created { versions = record version { providers = providers } ∷ [] }))

  unfoldable pub update_template : ChannelTemplate → Effect S (Unit {0})
  update_template template =
      require (not (template.name =ˢ "")) invalid
      >> (require (not (template.description =ˢ "")) invalid
          >> (require (is_valid_business template.business_type) invalid
              >> wrap (under Sentinel.update_template_failed) (t.repo.update_template template)))

  unfoldable pub publish_template : ℤ → ℤ → Effect S (Unit {0})
  publish_template template_id version_id =
      require (not (leb_ℤ template_id (pos 0))) invalid
      >> (require (not (leb_ℤ version_id (pos 0))) invalid
          >> (t.repo.get_template_version_by_id version_id >>= λ version.
              require (eqb_ℤ version.channel_template_id template_id)
                (under Sentinel.invalid_parameter (Sentinel.template_and_version_mis_match ∷ []))
              >> (require (is_approved version.audit_status) (
                    under Sentinel.invalid_parameter
                      (Sentinel.template_version_not_approved_by_platform ∷ []))
                  >> (t.repo.get_approved_providers template_id version_id >>= λ providers.
                      require (not (is_empty providers))
                        (Sentinel.template_version_not_approved_by_platform ∷ [])
                      >> t.repo.set_template_active_version template_id version_id))))

  unfoldable pub fork_version : ℤ → Effect S ChannelTemplateVersion
  fork_version version_id = t.repo.fork_template_version version_id

  -- the fields that may be changed
  abbrev pub changed_fields : ChannelTemplateVersion → ChannelTemplateVersion
  changed_fields version = record empty_version {
    id = version.id;
    name = version.name;
    signature = version.signature;
    content = version.content;
    remark = version.remark;
  }

  unfoldable pub update_version : ChannelTemplateVersion → Effect S (Unit {0})
  update_version version =
      require (not (leb_ℤ version.id (pos 0))) invalid
      >> (wrap (under Sentinel.update_template_version_failed)
            (t.repo.get_template_version_by_id version.id)
          >>= λ current.
              require (is_pending_or_rejected current.audit_status)
                (under Sentinel.update_template_version_failed (Sentinel.invalid_operation ∷ []))
              >> wrap (under Sentinel.update_template_version_failed)
                  (t.repo.update_template_version (changed_fields version)))

  -- the version as it is submitted, at the time `now` in seconds
  abbrev pub submitted : ChannelTemplateVersion → ℤ → ℤ → ChannelTemplateVersion
  submitted version audit_id now = record empty_version {
    id = version.id;
    audit_id = audit_id;
    audit_status = in_review;
    last_review_submission_time = now;
  }

  -- the steps of a submission, whose errors are all wrapped alike
  unfoldable pub submit_to_audit : ChannelTemplateVersion → Effect S (Unit {0})
  unfolding audit_content
  submit_to_audit version = t.repo.get_template_by_id version.channel_template_id >>= λ template.
      t.repo.get_providers template.id version.id >>= λ providers.
      lift (t.marshal (audit_content template version providers)) >>= λ content.
      t.create_audit (record { resource_id = version.id; content = content }) >>= λ audit_id. λ s.
        let (now, s') = t.now_unix s in
        t.repo.batch_update_version_audit (submitted version audit_id now ∷ []) s'

  unfoldable pub submit_for_internal_review : ℤ → Effect S (Unit {0})
  unfolding submit_to_audit
  submit_for_internal_review version_id =
      require (not (leb_ℤ version_id (pos 0))) invalid
      >> wrap (under Sentinel.submit_version_for_internal_review_failed)
          (t.repo.get_template_version_by_id version_id)
      >>= λ version.
          if is_in_review_or_approved version.audit_status
          then pure tt
          else wrap (under Sentinel.submit_version_for_internal_review_failed)
              (submit_to_audit version)

  unfoldable pub batch_update_version_audit_status :
      List ChannelTemplateVersion → Effect S (Unit {0})
  batch_update_version_audit_status versions =
      if is_empty versions
      then pure tt
      else wrap (under Sentinel.update_template_version_audit_status_failed)
          (t.repo.batch_update_version_audit versions)
