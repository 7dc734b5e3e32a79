-- ===== src/Domain/Template.antt =====
-- internal/domain/template.go: a channel template with its versions, and what is read from it. A
-- pointer into a slice is the element it points to, and a nil pointer is `none`.
use Prim.Native.String.{String}
use text.Mathlib.Text.{◌==◌ as ◌=ˢ◌}
use go_notification.Prelude.{
  Bool, true, false, not, ◌||◌, List, [], ◌∷◌, Option, none, some, ℤ, pos, ltb_ℤ, eqb_ℤ,
  if◌then◌else◌,
}
use go_notification.Errs.{Result, ok, guard, ◌>>◌}
use go_notification.Domain.Strategy.{invalid}
use go_notification.Domain.Notification.{Channel, is_valid}

pub data AuditStatus : Type 0 where
  pending in_review rejected approved : AuditStatus
  other_audit_status : String → AuditStatus

abbrev pub is_approved : AuditStatus → Bool
is_approved approved = true
is_approved _ = false

pub data OwnerType : Type 0 where
  person organization : OwnerType
  other_owner_type : String → OwnerType

abbrev pub is_valid_owner : OwnerType → Bool
is_valid_owner (other_owner_type _) = false
is_valid_owner _ = true

abbrev pub BusinessType : Type 0
BusinessType = ℤ

abbrev pub is_valid_business : BusinessType → Bool
is_valid_business b = eqb_ℤ b (pos 3) || eqb_ℤ b (pos 1) || eqb_ℤ b (pos 2)

pub record ChannelTemplateProvider : Type 0 where
  pub id : ℤ
  pub template_id : ℤ
  pub template_version_id : ℤ
  pub provider_id : ℤ
  pub provider_name : String
  pub provider_channel : Channel
  pub request_id : String
  pub provider_template_id : String
  pub audit_status : AuditStatus
  pub reject_reason : String
  pub last_review_submission_time : ℤ
  pub ctime : ℤ
  pub utime : ℤ

pub record ChannelTemplateVersion : Type 0 where
  pub id : ℤ
  pub channel_template_id : ℤ
  pub name : String
  pub signature : String
  pub content : String
  pub remark : String
  pub audit_id : ℤ
  pub auditor_id : ℤ
  pub audit_time : ℤ
  pub audit_status : AuditStatus
  pub reject_reason : String
  pub last_review_submission_time : ℤ
  pub ctime : ℤ
  pub utime : ℤ
  pub providers : List ChannelTemplateProvider

pub record ChannelTemplate : Type 0 where
  pub id : ℤ
  pub owner_id : ℤ
  pub owner_type : OwnerType
  pub name : String
  pub description : String
  pub channel : Channel
  pub business_type : BusinessType
  pub active_version_id : ℤ
  pub ctime : ℤ
  pub utime : ℤ
  pub versions : List ChannelTemplateVersion

unfoldable pub validate : ChannelTemplate → Result (Unit {0})
validate t = do
  guard (ltb_ℤ t.owner_id (pos 0)) invalid
  guard (not (is_valid_owner t.owner_type)) invalid
  guard (t.name =ˢ "") invalid
  guard (t.description =ˢ "") invalid
  guard (not (is_valid t.channel)) invalid
  guard (not (is_valid_business t.business_type)) invalid
  ok tt

abbrev pub has_published : ChannelTemplate → Bool
has_published t = not (eqb_ℤ t.active_version_id (pos 0))

-- the `for` loops over the versions and over the providers of a version
unfoldable pub find_version : ℤ → List ChannelTemplateVersion → Option ChannelTemplateVersion
find_version version_id [] = none
find_version version_id (v ∷ vs) =
    let later = find_version version_id vs in if eqb_ℤ v.id version_id then some v else later

unfoldable pub find_provider : ℤ → List ChannelTemplateProvider → Option ChannelTemplateProvider
find_provider provider_id [] = none
find_provider provider_id (p ∷ ps) =
    let later = find_provider provider_id ps in
    if eqb_ℤ p.provider_id provider_id then some p else later

unfoldable pub active_version : ChannelTemplate → Option ChannelTemplateVersion
unfolding find_version
active_version t =
    if eqb_ℤ t.active_version_id (pos 0) then none else find_version t.active_version_id t.versions

unfoldable pub get_version : ChannelTemplate → ℤ → Option ChannelTemplateVersion
unfolding find_version
get_version t version_id = find_version version_id t.versions

unfoldable pub get_providers_by_version : ChannelTemplate → ℤ → List ChannelTemplateProvider
unfolding get_version
get_providers_by_version t version_id = elim (get_version t version_id) [
  | none ↦ []
  | some version ↦ version.providers
]

unfoldable pub get_provider : ChannelTemplate → ℤ → ℤ → Option ChannelTemplateProvider
unfolding get_version find_provider
get_provider t version_id provider_id = elim (get_version t version_id) [
  | none ↦ none
  | some version ↦ find_provider provider_id version.providers
]

unfoldable pub any_approved : List ChannelTemplateVersion → Bool
any_approved [] = false
any_approved (v ∷ vs) =
    let later = any_approved vs in if is_approved v.audit_status then true else later

unfoldable pub has_approved_version : ChannelTemplate → Bool
unfolding any_approved
has_approved_version t = any_approved t.versions
