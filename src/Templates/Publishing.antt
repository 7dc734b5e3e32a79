-- ===== src/Templates/Publishing.antt =====
-- When a version is published or changed.
use go_notification.Prelude.{
  ◌≡◌, refl, Bool, true, false, not, List, ℤ, pos, leb_ℤ, eqb_ℤ, eqb_ℤ→eq, arith, if◌then◌else◌,
  ◌<ℤ◌,
}
use go_notification.Errs.{Err, Result, ok, err}
use go_notification.Effect.{Effect, bind_result, map_error}
use go_notification.Domain.Notification.{is_empty}
use go_notification.Domain.Template.{is_approved, ChannelTemplateVersion, ChannelTemplateProvider}
use go_notification.Templates.Backend.{TemplateServices}
use go_notification.Templates.Manage.{
  publish_template, update_version, is_pending_or_rejected, changed_fields,
}

-- What holds of every error, and of the rest of a chain in the state after its first part, holds of
-- the chain.
bind-elim {ℓ κ μ ν} :
    {S : Type ℓ} {A : Type κ} {B : Type μ} (P : Result B × S → Type ν) (m : Result A × S)
    (f : A → Effect S B)
    → ((e : Err) (s : S) → P (err e, s))
    → ((a : A) → m.0 ≡ ok a → P (f a m.1))
    → P (bind_result m f)
bind-elim P (ok a, s) f failed next = next a refl
bind-elim P (err e, s) f failed next = failed e s

guard-elim {ℓ κ ν} :
    {S : Type ℓ} {B : Type κ} (P : Result B × S → Type ν) (test : Bool) (e : Err) (s : S)
    (f : Unit {0} → Effect S B)
    → ((e : Err) (s : S) → P (err e, s))
    → (test ≡ true → P (f tt s))
    → P (bind_result ((if test then ok tt else err e), s) f)
guard-elim P true e s f failed next = next refl
guard-elim P false e s f failed next = failed e s

wrap-ok {ℓ} : {A : Type ℓ} (f : Err → Err) (r : Result A) (a : A) → map_error f r ≡ ok a → r ≡ ok a
wrap-ok f (ok b) a h = h
wrap-ok f (err e) a h = cc

not-true : (b : Bool) → not b ≡ true → b ≡ false
not-true b h = ground arith

positive : (a : ℤ) → not (leb_ℤ a (pos 0)) ≡ true → pos 0 <ℤ a
positive a h = ground arith

module _ {ℓ} {S : Type ℓ} (t : TemplateServices S) where
  -- what a result without an error comes of
  abbrev pub IsPublished : ℤ → ℤ → S → Result (Unit {0}) × S → Type ℓ
  IsPublished template_id version_id s r =
      r.0 ≡ ok tt
      → let s1 = (t.repo.get_template_version_by_id version_id s).1 in
        let asked = t.repo.get_approved_providers template_id version_id s1 in
        (version : ChannelTemplateVersion) × (providers : List ChannelTemplateProvider) × (pos 0
          <ℤ template_id)
        × (pos 0 <ℤ version_id)
        × ((t.repo.get_template_version_by_id version_id s).0 ≡ ok version)
        × (version.channel_template_id ≡ template_id)
        × (is_approved version.audit_status ≡ true)
        × (asked.0 ≡ ok providers)
        × (is_empty providers ≡ false)
        × (r ≡ t.repo.set_template_active_version template_id version_id asked.1)

  refused :
      (template_id version_id : ℤ) (s : S) (e : Err) (s' : S)
      → IsPublished template_id version_id s (err e, s')
  refused template_id version_id s e s' h = absurd (cc)

  -- A template is published only with positive IDs, with a version that the repository has under the
  -- ID given, that belongs to the template and is approved, and if the repository's query
  -- GetApprovedProvidersByTemplateIDAndVersionID gives some association, of whatever status; and the
  -- publication is then the setting of the active version.
  pub publish_template-IsPublished :
      (template_id version_id : ℤ) (s : S)
      → IsPublished template_id version_id s (publish_template t template_id version_id s)
  unfolding publish_template
  publish_template-IsPublished template_id version_id s =
      let Published = IsPublished template_id version_id s in
      let failed = λ (e : Err) (s' : S). refused template_id version_id s e s' in
      let s1 = (t.repo.get_template_version_by_id version_id s).1 in
      let asked = t.repo.get_approved_providers template_id version_id s1 in
      guard-elim Published (not (leb_ℤ template_id (pos 0))) _ s _ failed (λ t_pos.
        guard-elim Published (not (leb_ℤ version_id (pos 0))) _ s _ failed (λ v_pos.
          bind-elim Published (t.repo.get_template_version_by_id version_id s) _ failed
            (λ version got.
              guard-elim Published (eqb_ℤ version.channel_template_id template_id) _ s1 _ failed
                (λ belongs.
                  guard-elim Published (is_approved version.audit_status) _ s1 _ failed (λ is_good.
                    bind-elim Published asked _ failed (λ providers listed.
                      guard-elim Published (not (is_empty providers)) _ asked.1 _ failed
                        (λ some_there h. (
                          version,
                          providers,
                          positive template_id t_pos,
                          positive version_id v_pos,
                          got,
                          eqb_ℤ→eq version.channel_template_id template_id belongs,
                          is_good,
                          listed,
                          not-true (is_empty providers) some_there,
                          refl,
                        ))))))))

  -- what a change of a version without an error comes of
  abbrev pub IsChanged : ChannelTemplateVersion → S → Result (Unit {0}) × S → Type 0
  IsChanged version s r =
      r.0 ≡ ok tt
      → let asked = t.repo.get_template_version_by_id version.id s in
        (current : ChannelTemplateVersion) × (pos 0 <ℤ version.id)
        × (asked.0 ≡ ok current)
        × (is_pending_or_rejected current.audit_status ≡ true)
        × ((t.repo.update_template_version (changed_fields t version) asked.1).0 ≡ ok tt)

  unchanged :
      (version : ChannelTemplateVersion) (s : S) (e : Err) (s' : S)
      → IsChanged version s (err e, s')
  unchanged version s e s' h = absurd (cc)

  -- A version is changed only if its ID is positive, the repository has a version under it that is
  -- pending or rejected, and the repository changed it, in the fields that may be changed.
  pub update_version-IsChanged :
      (version : ChannelTemplateVersion) (s : S) → IsChanged version s (update_version t version s)
  unfolding update_version
  update_version-IsChanged version s =
      let Changed = IsChanged version s in
      let failed = λ (e : Err) (s' : S). unchanged version s e s' in
      let asked = t.repo.get_template_version_by_id version.id s in
      guard-elim Changed (not (leb_ℤ version.id (pos 0))) _ s _ failed (λ v_pos.
        bind-elim Changed (map_error _ asked.0, asked.1) _ failed
          (λ current got.
            guard-elim Changed (is_pending_or_rejected current.audit_status) _ asked.1 _ failed
              (λ open_to_change h. (
                current,
                positive version.id v_pos,
                wrap-ok _ asked.0 current got,
                open_to_change,
                wrap-ok _ _ tt h,
              ))))
