-- ===== src/Templates/Grouping.antt =====
-- The versions of a template as they are put together from the rows of three tables.
use go_notification.Prelude.{
  ◌≡◌, refl, sym, ap, ◌∙◌, inl, inr, Bool, true, false, Bool-cases, List, [], ◌∷◌, ◌++◌, map,
  append-nil, append_assoc, ℤ, eqb_ℤ, arith, if◌then◌else◌, eqb_ℤ→eq,
}
use go_notification.Domain.Template.{ChannelTemplateVersion, ChannelTemplateProvider}
use go_notification.Templates.Entities.{
  TemplateRow, VersionRow, ProviderRow, to_provider_domain, to_version_domain, to_template_domain,
}
use go_notification.Templates.Repository.{
  listed, append_to, version_to_providers, template_to_versions, versions_by_template,
  with_providers, with_versions,
}

-- the elements that pass a test, in their order
abbrev pub select {ℓ} : {A : Type ℓ} → (A → Bool) → List A → List A
select test [] = []
select test (x ∷ xs) = if test x then x ∷ select test xs else select test xs

-- the associations of a version, and the versions of a template with them
abbrev pub providers_of : List ProviderRow → ℤ → List ChannelTemplateProvider
providers_of providers id =
    map to_provider_domain (select (λ p. eqb_ℤ (ProviderRow.template_version_id p) id) providers)

abbrev pub complete_version : List ProviderRow → VersionRow → ChannelTemplateVersion
complete_version providers v = record (to_version_domain v) {
  providers = providers_of providers v.id;
}

abbrev pub versions_of : List VersionRow → List ProviderRow → ℤ → List ChannelTemplateVersion
versions_of versions providers id =
    map (complete_version providers)
      (select (λ v. eqb_ℤ (VersionRow.channel_template_id v) id) versions)

eqb_ℤ-refl : (a : ℤ) → eqb_ℤ a a ≡ true
eqb_ℤ-refl a = ground arith

-- the value of an entry that is appended to, and of another entry
module _ {ℓ} {A : Type ℓ} (x y z : List A) (a : A) where
  same_entry :
      (b : Bool)
      → (if b then x ++ (a ∷ []) else y)
        ≡ (if b then (if b then x else y) ++ (a ∷ []) else (if b then x else y))
  same_entry true = refl
  same_entry false = refl

  other_entry :
      (b c : Bool)
      → ((b ≡ true) → c ≡ false)
      → y ≡ (if c then z ++ (a ∷ []) else z)
      → (if b then x else y)
        ≡ (if c then (if b then x else z) ++ (a ∷ []) else (if b then x else z))
  other_entry true c h later = rw (h refl) refl
  other_entry false c h later = later

distinct : (k key id : ℤ) → eqb_ℤ k key ≡ false → eqb_ℤ k id ≡ true → eqb_ℤ key id ≡ false
distinct k key id other same = ground arith

listed-append_to {ℓ} :
    {A : Type ℓ} (id key : ℤ) (a : A) (m : List (ℤ × List A))
    → listed id (append_to key a m)
      ≡ (if eqb_ℤ key id then listed id m ++ (a ∷ []) else listed id m)
unfolding listed append_to
listed-append_to id key a [] = refl
listed-append_to id key a ((k, list) ∷ rest) = elim (Bool-cases (eqb_ℤ k key)) [
  | inl same ↦ rw (same, eqb_ℤ→eq k key same) (same_entry list (listed id rest) [] a (eqb_ℤ key id))
  | inr other ↦ rw other (
      other_entry list (listed id (append_to key a rest)) (listed id rest) a (eqb_ℤ k id)
        (eqb_ℤ key id) (distinct k key id other) (listed-append_to id key a rest))
]

-- an element that passes the test is appended to what was selected before it
select_step {ℓ κ} :
    {A : Type ℓ} {B : Type κ} (f : A → B) (test : Bool) (before : List B) (x : A) (later : List A)
    → (if test then before ++ (f x ∷ []) else before) ++ map f later
      ≡ before ++ map f (if test then x ∷ later else later)
select_step f true before x later = append_assoc before (f x ∷ []) (map f later)
select_step f false before x later = refl

version_to_providers-listed :
    (id : ℤ) (ps : List ProviderRow) (m : List (ℤ × List ChannelTemplateProvider))
    → listed id (version_to_providers ps m) ≡ listed id m ++ providers_of ps id
unfolding version_to_providers
version_to_providers-listed id [] m = sym (append-nil (listed id m))
version_to_providers-listed id (p ∷ ps) m =
    version_to_providers-listed id ps (append_to p.template_version_id (to_provider_domain p) m)
    ∙ ap (λ l. l ++ providers_of ps id)
        (listed-append_to id p.template_version_id (to_provider_domain p) m)
    ∙ select_step to_provider_domain (eqb_ℤ p.template_version_id id) (listed id m) p
        (select (λ q. eqb_ℤ (ProviderRow.template_version_id q) id) ps)

template_to_versions-listed :
    (id : ℤ) (providers : List ProviderRow) (vs : List VersionRow)
    (m : List (ℤ × List ChannelTemplateVersion))
    → listed id (template_to_versions (version_to_providers providers []) vs m)
      ≡ listed id m ++ versions_of vs providers id
unfolding template_to_versions
template_to_versions-listed id providers [] m = sym (append-nil (listed id m))
template_to_versions-listed id providers (v ∷ vs) m =
    let by_version = version_to_providers providers [] in
    template_to_versions-listed id providers vs
      (append_to v.channel_template_id (with_providers by_version v) m)
    ∙ ap (λ l. l ++ versions_of vs providers id)
        (listed-append_to id v.channel_template_id (with_providers by_version v) m
          ∙ ap
              (λ w. if eqb_ℤ v.channel_template_id id then listed id m ++ (w ∷ []) else listed id m)
              (ap (λ ps. record (to_version_domain v) { providers = ps })
                (version_to_providers-listed v.id providers [])))
    ∙ select_step (complete_version providers) (eqb_ℤ v.channel_template_id id) (listed id m) v
        (select (λ w. eqb_ℤ (VersionRow.channel_template_id w) id) vs)

-- However the rows of the three tables are ordered, a template gets the versions of its own ID, each
-- with the associations of its own ID, in the order of their rows: the maps that the code builds give
-- what selecting the rows gives.
pub with_versions-select :
    (t : TemplateRow) (versions : List VersionRow) (providers : List ProviderRow)
    → with_versions (versions_by_template versions providers) t
      ≡ record (to_template_domain t) { versions = versions_of versions providers t.id }
unfolding versions_by_template
with_versions-select t versions providers =
    ap (λ vs. record (to_template_domain t) { versions = vs })
      (template_to_versions-listed t.id providers versions [])
