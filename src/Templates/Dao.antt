-- ===== src/Templates/Dao.antt =====
-- internal/repository/dao/template.go: the statements on the three tables of templates, as values. gorm
-- and the database, which run them, are the parameter TemplateDatabase.
mod Tables
unfoldable pub use Tables.*
use Prim.Native.String.{String, ◌++◌ as ◌++ˢ◌}
use text.Mathlib.Text.{◌==◌ as ◌=ˢ◌}
use go_notification.Prelude.{
  Bool, not, List, [], ◌∷◌, map, Option, none, some, ℤ, pos, ltb_ℤ, if◌then◌else◌,
}
use go_notification.Errs.{Sentinel, Result, ok, err}
use go_notification.Effect.{Effect, bind_result}
use go_notification.Domain.Notification.{Channel, is_empty}
use go_notification.Domain.Template.{AuditStatus, pending, approved, other_audit_status, OwnerType}
use go_notification.Templates.Entities.{TemplateRow, VersionRow, ProviderRow}

module _ {ℓ} {S : Type ℓ} (db : TemplateDatabase S) where
  -- db.Transaction
  abbrev pub transaction {κ} : {A : Type κ} → Effect S A → Effect S A
  transaction body s =
      let (r, s') = body s in elim r [ err e ↦ (err e, db.rollback s s') | ok a ↦ (ok a, s') ]

  unfoldable pub get_template_by_owner : ℤ → OwnerType → Effect S (List TemplateRow)
  get_template_by_owner owner_id owner_type =
      db.select_templates
        (both (equals "owner_id" (number owner_id)) (equals "owner_type" (owner owner_type)))

  unfoldable pub get_template_by_id : ℤ → Effect S TemplateRow
  get_template_by_id id s =
      bind_result (db.first_template (equals "id" (number id)) s)
        λ found s'. (found_or Sentinel.template_not_found found, s')

  unfoldable pub create_template : TemplateRow → Effect S TemplateRow
  create_template template s =
      let (now, s') = db.now_milli s in
      db.insert_template (record template { ctime = now; utime = now }) s'

  -- the condition has no argument
  unfoldable pub update_template : TemplateRow → Effect S (Unit {0})
  update_template template = db.update channel_templates (lacking "id") (
      ("name", words template.name)
      ∷ ("description", words template.description)
      ∷ ("business_type", number template.business_type)
      ∷ ("utime", number template.utime)
      ∷ [])

  unfoldable pub set_template_active_version : ℤ → ℤ → Effect S (Unit {0})
  set_template_active_version template_id version_id s =
      let (now, s') = db.now_milli s in
      db.update channel_templates (equals "id" (number template_id))
        (("active_version", number version_id) ∷ ("utime", number now) ∷ []) s'

  unfoldable pub get_template_version_by_template_ids : List ℤ → Effect S (List VersionRow)
  get_template_version_by_template_ids template_ids s =
      if is_empty template_ids
      then (ok [], s)
      else db.select_versions (one_of "channel_template_id" template_ids) s

  unfoldable pub get_template_version_by_id : ℤ → Effect S VersionRow
  get_template_version_by_id version_id s =
      bind_result (db.first_version (equals "id" (number version_id)) s)
        λ found s'. (found_or Sentinel.template_version_not_found found, s')

  unfoldable pub create_template_version : VersionRow → Effect S VersionRow
  create_template_version version s =
      let (now, s') = db.now_milli s in
      db.insert_version (record version { ctime = now; utime = now }) s'

  -- the body of the transaction of a fork
  unfoldable pub fork_at : ℤ → ℤ → Effect S VersionRow
  unfolding get_template_version_by_id forked_version forked_provider
  fork_at now version_id s = bind_result (get_template_version_by_id version_id s) λ old s1.
      bind_result (db.insert_version (forked_version now old) s1) λ fork s2.
        bind_result
          (db.select_providers
            (both (equals "template_id" (number old.channel_template_id))
              (equals "template_version" (number version_id)))
            s2)
          λ providers s3.
            bind_result (db.insert_providers (map (forked_provider now fork) providers) s3)
              λ _ s4. (ok fork, s4)

  unfoldable pub fork_template_version : ℤ → Effect S VersionRow
  unfolding fork_at
  fork_template_version version_id s =
      let (now, s') = db.now_milli s in transaction (fork_at now version_id) s'

  unfoldable pub get_provider_by_version_ids : List ℤ → Effect S (List ProviderRow)
  get_provider_by_version_ids version_ids s =
      if is_empty version_ids
      then (ok [], s)
      else db.select_providers (one_of "template_version_id" version_ids) s

  -- the status asked for is PENDING
  unfoldable pub get_provider_by_name_and_channel :
      ℤ → ℤ → String → Channel → Effect S (List ProviderRow)
  get_provider_by_name_and_channel template_id version_id provider_name channel_name =
      db.select_providers (
        both (of_version template_id version_id) (
          both (equals "provider_name" (words provider_name)) (
            both (equals "provider_channel" (channel channel_name))
              (equals "audit_status" (status pending)))))

  unfoldable pub batch_create_template_providers : List ProviderRow → Effect S (List ProviderRow)
  batch_create_template_providers providers s =
      if is_empty providers
      then (ok [], s)
      else (let (now, s') = db.now_milli s in
          db.insert_providers
            (map (λ (p : ProviderRow). record p { ctime = now; utime = now }) providers) s')

  -- the status is not compared
  unfoldable pub get_approved_providers : ℤ → ℤ → Effect S (List ProviderRow)
  get_approved_providers template_id version_id =
      db.select_providers
        (both (of_version template_id version_id) (bare "audit_status" (status approved)))

  unfoldable pub get_providers : ℤ → ℤ → Effect S (List ProviderRow)
  get_providers template_id version_id = db.select_providers (of_version template_id version_id)

  -- the table is that of the associations
  unfoldable pub update_template_version : VersionRow → Effect S (Unit {0})
  update_template_version version s =
      let (now, s') = db.now_milli s in
      db.update channel_template_providers (equals "id" (number version.id))
        (("name", words version.name)
          ∷ ("signature", words version.signature)
          ∷ ("content", words version.content)
          ∷ ("remark", words version.remark)
          ∷ ("utime", number now)
          ∷ [])
        s'

  -- the loop of the transaction, on the table of the associations
  unfoldable pub update_version_audits : List VersionRow → Effect S (Unit {0})
  unfolding version_columns
  update_version_audits [] s = (ok tt, s)
  update_version_audits (v ∷ vs) s =
      let (now, s1) = db.now_milli s in
      bind_result
        (db.update channel_template_providers (equals "id" (number v.id)) (version_columns now v)
          s1)
        λ _ s2. update_version_audits vs s2

  unfoldable pub batch_update_version_audit : List VersionRow → Effect S (Unit {0})
  unfolding update_version_audits
  batch_update_version_audit versions = transaction (update_version_audits versions)

  unfoldable pub update_provider_audit : ProviderRow → Effect S (Unit {0})
  unfolding provider_columns
  update_provider_audit provider s =
      let (now, s') = db.now_milli s in
      db.update channel_template_providers (equals "id" (number provider.id))
        (provider_columns now provider) s'

  unfoldable pub update_provider_audits : List ProviderRow → Effect S (Unit {0})
  unfolding update_provider_audit
  update_provider_audits [] s = (ok tt, s)
  update_provider_audits (p ∷ ps) s =
      bind_result (update_provider_audit p s) λ _ s'. update_provider_audits ps s'

  unfoldable pub batch_update_providers_audit : List ProviderRow → Effect S (Unit {0})
  unfolding update_provider_audits
  batch_update_providers_audit providers s =
      if is_empty providers then (ok tt, s) else transaction (update_provider_audits providers) s

  unfoldable pub get_pending_or_in_review : ℤ → ℤ → ℤ → Effect S (List ProviderRow)
  get_pending_or_in_review offset limit utime = db.select_page (pending_until utime) offset limit

  unfoldable pub total_pending_or_in_review : ℤ → Effect S ℤ
  total_pending_or_in_review utime = db.count_providers (pending_until utime)
