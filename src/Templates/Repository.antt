-- ===== src/Templates/Repository.antt =====
-- internal/repository/template.go: the repository of templates over the tables.
use go_notification.Prelude.{List, [], ◌∷◌, ◌++◌, map, ℤ, eqb_ℤ, if◌then◌else◌}
use go_notification.Effect.{Effect, pure, ◌>>=◌}
use go_notification.Domain.Notification.{is_empty}
use go_notification.Domain.Template.{
  OwnerType, ChannelTemplate, ChannelTemplateVersion, ChannelTemplateProvider,
}
use go_notification.Templates.Backend.{TemplateRepository}
use go_notification.Templates.Entities.{
  TemplateRow, VersionRow, ProviderRow, to_provider_domain, to_provider_entity, to_version_domain,
  to_version_entity, to_template_domain, to_template_entity,
}
use go_notification.Templates.Dao
use go_notification.Templates.Dao.{TemplateDatabase}

-- a map from IDs to lists, and `m[id] = append(m[id], a)`
unfoldable pub listed {ℓ} : {A : Type ℓ} → ℤ → List (ℤ × List A) → List A
listed id [] = []
listed id ((key, list) ∷ rest) = let later = listed id rest in if eqb_ℤ key id then list else later

unfoldable pub append_to {ℓ} : {A : Type ℓ} → ℤ → A → List (ℤ × List A) → List (ℤ × List A)
append_to id a [] = (id, a ∷ []) ∷ []
append_to id a ((key, list) ∷ rest) =
    let later = append_to id a rest in
    if eqb_ℤ key id then (key, list ++ (a ∷ [])) ∷ rest else (key, list) ∷ later

unfoldable pub version_to_providers :
    List ProviderRow
    → List (ℤ × List ChannelTemplateProvider)
    → List (ℤ × List ChannelTemplateProvider)
unfolding append_to
version_to_providers [] m = m
version_to_providers (p ∷ ps) m =
    version_to_providers ps (append_to p.template_version_id (to_provider_domain p) m)

-- a version with its associations
abbrev pub with_providers :
    List (ℤ × List ChannelTemplateProvider) → VersionRow → ChannelTemplateVersion
with_providers providers v = record (to_version_domain v) { providers = listed v.id providers }

unfoldable pub template_to_versions :
    List (ℤ × List ChannelTemplateProvider)
    → List VersionRow
    → List (ℤ × List ChannelTemplateVersion)
    → List (ℤ × List ChannelTemplateVersion)
unfolding append_to to_version_domain listed
template_to_versions providers [] m = m
template_to_versions providers (v ∷ vs) m =
    template_to_versions providers vs
      (append_to v.channel_template_id (with_providers providers v) m)

-- a template with its versions
abbrev pub with_versions : List (ℤ × List ChannelTemplateVersion) → TemplateRow → ChannelTemplate
with_versions versions t = record (to_template_domain t) { versions = listed t.id versions }

-- the map from templates to versions, from the rows of two tables
unfoldable pub versions_by_template :
    List VersionRow → List ProviderRow → List (ℤ × List ChannelTemplateVersion)
unfolding version_to_providers template_to_versions
versions_by_template versions providers =
    template_to_versions (version_to_providers providers []) versions []

module _ {ℓ} {S : Type ℓ} (db : TemplateDatabase S) where
  -- what getTemplates reads of the versions and their associations
  unfoldable pub read_versions :
      List TemplateRow → Effect S (List (ℤ × List ChannelTemplateVersion))
  unfolding versions_by_template
  read_versions templates =
      Dao.get_template_version_by_template_ids db (map (λ t. TemplateRow.id t) templates)
      >>= λ versions.
          Dao.get_provider_by_version_ids db (map (λ v. VersionRow.id v) versions) >>= λ providers.
          pure (versions_by_template versions providers)

  unfoldable pub get_templates : List TemplateRow → Effect S (List ChannelTemplate)
  unfolding read_versions listed to_template_domain
  get_templates templates =
      read_versions templates >>= λ versions. pure (map (with_versions versions) templates)

  unfoldable pub get_templates_by_owner : ℤ → OwnerType → Effect S (List ChannelTemplate)
  unfolding get_templates
  get_templates_by_owner owner_id owner_type =
      Dao.get_template_by_owner db owner_id owner_type >>= λ templates.
      if is_empty templates then pure [] else get_templates templates

  -- the only element of what getTemplates returns for one row
  unfoldable pub get_template_by_id : ℤ → Effect S ChannelTemplate
  unfolding read_versions listed to_template_domain
  get_template_by_id template_id = Dao.get_template_by_id db template_id >>= λ row.
      read_versions (row ∷ []) >>= λ versions. pure (with_versions versions row)

  unfoldable pub get_template_version_by_id : ℤ → Effect S ChannelTemplateVersion
  unfolding to_version_domain to_provider_domain
  get_template_version_by_id version_id =
      Dao.get_template_version_by_id db version_id >>= λ version.
      Dao.get_provider_by_version_ids db (version_id ∷ []) >>= λ providers.
      pure (record (to_version_domain version) { providers = map to_provider_domain providers })

  unfoldable pub fork_template_version : ℤ → Effect S ChannelTemplateVersion
  unfolding to_version_domain to_provider_domain
  fork_template_version version_id = Dao.fork_template_version db version_id >>= λ v.
      Dao.get_providers db v.channel_template_id v.id >>= λ providers.
      pure (record (to_version_domain v) { providers = map to_provider_domain providers })

  abbrev pub provider_domains :
      Effect S (List ProviderRow) → Effect S (List ChannelTemplateProvider)
  provider_domains found = found >>= λ providers. pure (map to_provider_domain providers)

  unfoldable pub batch_create_template_providers :
      List ChannelTemplateProvider → Effect S (List ChannelTemplateProvider)
  batch_create_template_providers providers =
      if is_empty providers
      then pure []
      else provider_domains
          (Dao.batch_create_template_providers db (map to_provider_entity providers))

  unfoldable pub get_pending_or_in_review : ℤ → ℤ → ℤ → Effect S (List ChannelTemplateProvider × ℤ)
  get_pending_or_in_review offset limit utime =
      Dao.get_pending_or_in_review db offset limit utime >>= λ providers.
      Dao.total_pending_or_in_review db utime >>= λ total.
      pure (map to_provider_domain providers, total)

  -- the repository as the service sees it
  unfoldable pub template_repository : TemplateRepository S
  unfolding get_template_version_by_id
  template_repository = record {
    get_templates_by_owner = get_templates_by_owner;
    get_template_by_id = get_template_by_id;
    create_template = λ template. Dao.create_template db (to_template_entity template) >>= λ row.
        pure (to_template_domain row);
    update_template = λ template. Dao.update_template db (to_template_entity template);
    set_template_active_version = Dao.set_template_active_version db;
    get_template_version_by_id = get_template_version_by_id;
    create_template_version = λ version.
        Dao.create_template_version db (to_version_entity version) >>= λ row.
        pure (to_version_domain row);
    fork_template_version = fork_template_version;
    get_provider_by_name_and_channel = λ template_id version_id name channel.
        provider_domains
          (Dao.get_provider_by_name_and_channel db template_id version_id name channel);
    batch_create_template_providers = batch_create_template_providers;
    get_approved_providers = λ template_id version_id.
        provider_domains (Dao.get_approved_providers db template_id version_id);
    get_providers =
        λ template_id version_id. provider_domains (Dao.get_providers db template_id version_id);
    update_template_version = λ version. Dao.update_template_version db (to_version_entity version);
    batch_update_version_audit =
        λ versions. Dao.batch_update_version_audit db (map to_version_entity versions);
    update_provider_audit = λ provider. Dao.update_provider_audit db (to_provider_entity provider);
    batch_update_providers_audit =
        λ providers. Dao.batch_update_providers_audit db (map to_provider_entity providers);
    get_pending_or_in_review = get_pending_or_in_review;
  }
