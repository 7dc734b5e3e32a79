-- ===== src/Templates/Dao/Tables.antt =====
-- internal/repository/dao/template.go: the conditions and columns of the statements, and the database that
-- runs them.
use Prim.Native.String.{String, ◌++◌ as ◌++ˢ◌}
use text.Mathlib.Text.{◌==◌ as ◌=ˢ◌}
use go_notification.Prelude.{
  Bool, not, List, [], ◌∷◌, Option, none, some, ℤ, pos, ltb_ℤ, if◌then◌else◌,
}
use go_notification.Errs.{Sentinel, Result, ok, err}
use go_notification.Effect.{Effect}
use go_notification.Domain.Notification.{Channel}
use go_notification.Domain.Template.{AuditStatus, pending, other_audit_status, OwnerType}
use go_notification.Templates.Entities.{TemplateRow, VersionRow, ProviderRow}

pub data Table : Type 0 where
  channel_templates channel_template_versions channel_template_providers : Table

pub data Value : Type 0 where
  number : ℤ → Value
  words : String → Value
  status : AuditStatus → Value
  channel : Channel → Value
  owner : OwnerType → Value

-- A condition of a WHERE clause by its columns. `lacking` is `column = ?` without an argument, and
-- `bare` a column without a comparison, whose argument has no place in the text.
pub data Condition : Type 0 where
  equals : String → Value → Condition
  one_of : String → List ℤ → Condition
  at_most : String → ℤ → Condition
  lacking : String → Condition
  bare : String → Value → Condition
  both either : Condition → Condition → Condition

-- the columns and values of an UPDATE
abbrev pub Columns : Type 0
Columns = List (String × Value)

unfoldable pub put_column : String → Value → Columns → Columns
put_column name v [] = (name, v) ∷ []
put_column name v ((other, w) ∷ rest) =
    let later = put_column name v rest in
    if other =ˢ name then (name, v) ∷ rest else (other, w) ∷ later

abbrev pub put_if : Bool → String → Value → Columns → Columns
put_if test name v columns = if test then put_column name v columns else columns

-- `first` answers `none` for gorm.ErrRecordNotFound. `rollback` takes the state in which a transaction
-- began and the one in which it failed.
pub record TemplateDatabase {ℓ} (S : Type ℓ) : Type ℓ where
  pub now_milli : S → ℤ × S
  pub select_templates : Condition → Effect S (List TemplateRow)
  pub first_template : Condition → Effect S (Option TemplateRow)
  pub insert_template : TemplateRow → Effect S TemplateRow
  pub select_versions : Condition → Effect S (List VersionRow)
  pub first_version : Condition → Effect S (Option VersionRow)
  pub insert_version : VersionRow → Effect S VersionRow
  pub select_providers : Condition → Effect S (List ProviderRow)
  pub select_page : Condition → ℤ → ℤ → Effect S (List ProviderRow)
  pub count_providers : Condition → Effect S ℤ
  pub insert_providers : List ProviderRow → Effect S (List ProviderRow)
  pub update : Table → Condition → Columns → Effect S (Unit {0})
  pub rollback : S → S → S

abbrev pub is_no_status : AuditStatus → Bool
is_no_status (other_audit_status s) = s =ˢ ""
is_no_status _ = Bool.false

abbrev pub found_or {ℓ} : {A : Type ℓ} → Sentinel → Option A → Result A
found_or missing none = err (missing ∷ [])
found_or missing (some a) = ok a

-- the columns of the audit of an association, at the time `now`
unfoldable pub provider_columns : ℤ → ProviderRow → Columns
unfolding put_column
provider_columns now p =
    put_if (ltb_ℤ (pos 0) p.last_review_submission_time) "last_review_submission_time"
      (number p.last_review_submission_time)
      (put_if (not (p.reject_reason =ˢ "")) "reject_reason" (words p.reject_reason) (
        put_if (not (is_no_status p.audit_status)) "audit_status" (status p.audit_status) (
          put_if (not (p.provider_template_id =ˢ "")) "provider_template_id"
            (words p.provider_template_id)
            (put_if (not (p.request_id =ˢ "")) "request_id" (words p.request_id)
              (("utime", number now) ∷ [])))))

-- the columns of the audit of a version: the auditor is put under the name of the status
unfoldable pub version_columns : ℤ → VersionRow → Columns
unfolding put_column
version_columns now v =
    put_if (ltb_ℤ (pos 0) v.last_review_submission_time) "last_review_submission_time"
      (number v.last_review_submission_time)
      (put_if (not (v.reject_reason =ˢ "")) "reject_reason" (words v.reject_reason) (
        put_if (ltb_ℤ (pos 0) v.audit_time) "audit_time" (number v.audit_time) (
          put_if (ltb_ℤ (pos 0) v.auditor_id) "audit_status" (number v.auditor_id) (
            put_if (ltb_ℤ (pos 0) v.audit_id) "audit_id" (number v.audit_id)
              (("audit_status", status v.audit_status) ∷ ("utime", number now) ∷ [])))))

-- the version that a fork inserts, and the association of the fork with a provider
unfoldable pub forked_version : ℤ → VersionRow → VersionRow
forked_version now old = record {
  id = pos 0;
  channel_template_id = old.channel_template_id;
  name = "Forked" ++ˢ old.name;
  signature = old.signature;
  content = old.content;
  remark = old.remark;
  audit_id = pos 0;
  auditor_id = pos 0;
  audit_time = pos 0;
  audit_status = pending;
  reject_reason = "";
  last_review_submission_time = pos 0;
  ctime = now;
  utime = now;
}

-- the provider's ID is taken from the association's own
unfoldable pub forked_provider : ℤ → VersionRow → ProviderRow → ProviderRow
forked_provider now fork p = record {
  id = pos 0;
  template_id = fork.channel_template_id;
  template_version_id = fork.id;
  provider_id = p.id;
  provider_name = p.provider_name;
  provider_channel = p.provider_channel;
  request_id = "";
  provider_template_id = "";
  audit_status = pending;
  reject_reason = "";
  last_review_submission_time = pos 0;
  ctime = now;
  utime = now;
}

-- the associations of a version of a template
abbrev pub of_version : ℤ → ℤ → Condition
of_version template_id version_id =
    both (equals "template_id" (number template_id))
      (equals "template_version_id" (number version_id))

-- both tests are of the status PENDING
abbrev pub pending_until : ℤ → Condition
pending_until utime =
    both (either (equals "audit_status" (status pending)) (equals "audit_status" (status pending)))
      (at_most "utime" utime)
