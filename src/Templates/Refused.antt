-- ===== src/Templates/Refused.antt =====
-- What the statements of the DAO come to in a database that refuses columns that its tables lack.
use Prim.Native.String.{String}
use go_notification.Prelude.{
  ◌≡◌, ◌≢◌, refl, sym, ap, ◌∙◌, Bool, true, false, not, ◌||◌, List, [], ◌∷◌, ℤ, has_name,
}
use go_notification.Errs.{ok, Refuses, not_ok}
use go_notification.Domain.Template.{ChannelTemplateVersion}
use go_notification.Templates.Backend.{TemplateServices}
use go_notification.Templates.Dao
use go_notification.Templates.Dao.{
  TemplateDatabase, Table, channel_templates, channel_template_versions, channel_template_providers,
  Condition, Columns, Value, put_if, put_column, version_columns,
}
use go_notification.Templates.Repository.{template_repository}
use go_notification.Templates.Publishing.{publish_template-IsPublished, update_version-IsChanged}
use go_notification.Templates.Manage.{publish_template, update_version}

-- the columns of the tables by gorm's names for the fields of the structs
abbrev pub columns_of : Table → List String
columns_of channel_templates =
    "id" ∷ "owner_id" ∷ "owner_type" ∷ "name" ∷ "description" ∷ "channel" ∷ "business_type"
    ∷ "active_version_id" ∷ "ctime" ∷ "utime" ∷ []
columns_of channel_template_versions =
    "id" ∷ "channel_template_id" ∷ "name" ∷ "signature" ∷ "content" ∷ "remark" ∷ "audit_id"
    ∷ "auditor_id" ∷ "audit_time" ∷ "audit_status" ∷ "reject_reason"
    ∷ "last_r_eeview_submission_time" ∷ "ctime" ∷ "utime" ∷ []
columns_of channel_template_providers =
    "id" ∷ "template_id" ∷ "template_version_id" ∷ "provider_id" ∷ "provider_name"
    ∷ "provider_channel" ∷ "request_id" ∷ "provider_template_id" ∷ "audit_status" ∷ "reject_reason"
    ∷ "last_r_eeview_submission_time" ∷ "ctime" ∷ "utime" ∷ []

abbrev pub any_unknown : List String → Columns → Bool
any_unknown names [] = false
any_unknown names ((name, _) ∷ rest) = not (has_name name names) || any_unknown names rest

-- an UPDATE that names a column that its table lacks is an error
abbrev pub RefusesUnknown {ℓ} : {S : Type ℓ} → TemplateDatabase S → Type ℓ
RefusesUnknown {S} db =
    (table : Table) (where_clause : Condition) (columns : Columns) (s : S)
    → any_unknown (columns_of table) columns ≡ true
    → Refuses (db.update table where_clause columns s).0

module _ {ℓ} {S : Type ℓ} (db : TemplateDatabase S) (t : TemplateServices S)
    (strict : RefusesUnknown db) where
  -- the services with the repository over the database
  abbrev pub over_database : TemplateServices S
  over_database = record t { repo = template_repository db }

  -- If the database refuses columns that a table lacks, then no template is ever published, since the
  -- statement names active_version, and the table has active_version_id.
  pub publish_template-refused :
      (template_id version_id : ℤ) (s : S)
      → (publish_template over_database template_id version_id s).0 ≢ ok tt
  unfolding template_repository Dao.set_template_active_version
  publish_template-refused template_id version_id s h =
      let p = publish_template-IsPublished over_database template_id version_id s h in
      not_ok (strict channel_templates _ _ _ refl) (sym (ap (λ r. r.0) p.9) ∙ h)

  -- If the database refuses columns that a table lacks, then no version is ever changed, since the
  -- statement is on the table of the associations, which has no name.
  update_version-refused :
      (version : ChannelTemplateVersion) (s : S)
      → (update_version over_database version s).0 ≢ ok tt
  unfolding template_repository Dao.update_template_version
  update_version-refused version s h =
      let p = update_version-IsChanged over_database version s h in
      not_ok (strict channel_template_providers _ _ _ refl) p.4
