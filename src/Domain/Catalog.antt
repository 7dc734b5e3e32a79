-- ===== src/Domain/Catalog.antt =====
-- What the validation of a provider accepts, and what a template's lookups find.
use text.Mathlib.Text.{◌==◌ as ◌=ˢ◌}
use mathlib.Core.List.{Memᴰ}
use mathlib.Core.List.Memᴰ.{head, tail}
use go_notification.Prelude.{
  ◌≡◌, ◌≢◌, ◌↔◌, refl, sym, inl, inr, found-cases, subst, true, not, List, [], ◌∷◌, Option, none,
  some, Option-cases, ℤ, pos, ◌<ℤ◌, leb_ℤ, eqb_ℤ, eqb_ℤ→eq, arith,
}
use go_notification.Errs.{ok}
use go_notification.Domain.Guards.{
  guard_iff, Judged, guard-Judged, positive_iff, named_iff, true_iff, done_iff,
}
use go_notification.Domain.Notification.{is_valid}
use go_notification.Domain.Provider
use go_notification.Domain.Template.{
  find_version, find_provider, ChannelTemplateVersion, ChannelTemplateProvider, ChannelTemplate,
  get_provider, get_version,
}

abbrev pub AcceptableProvider : Provider.Provider → Type 0
AcceptableProvider p =
    (p.name ≢ "")
    × ((is_valid p.channel ≡ true)
        × ((p.endpoint ≢ "")
            × ((p.api_key ≢ "")
                × ((p.api_secret ≢ "")
                    × ((pos 0 <ℤ p.weight)
                        × ((pos 0 <ℤ p.qps_limit) × ((pos 0 <ℤ p.daily_limit) × (Unit {0}))))))))

-- A provider is accepted exactly if its name, endpoint, key and secret are given, its channel is
-- known and its weight and limits are positive; a refusal is an invalid parameter.
validate_provider_iff :
    (p : Provider.Provider)
    → ((Provider.validate p ≡ ok tt) ↔ AcceptableProvider p) × Judged (Provider.validate p)
unfolding Provider.validate
validate_provider_iff p = (
  guard_iff _ _ (named_iff p.name) (
      guard_iff _ _ (true_iff (is_valid p.channel)) (
        guard_iff _ _ (named_iff p.endpoint) (
          guard_iff _ _ (named_iff p.api_key) (
            guard_iff _ _ (named_iff p.api_secret) (
              guard_iff _ _ (positive_iff p.weight) (
                guard_iff _ _ (positive_iff p.qps_limit)
                  (guard_iff _ _ (positive_iff p.daily_limit) (done_iff)))))))),
  guard-Judged (p.name =ˢ "") _ (
      guard-Judged (not (is_valid p.channel)) _ (
        guard-Judged (p.endpoint =ˢ "") _ (
          guard-Judged (p.api_key =ˢ "") _ (
            guard-Judged (p.api_secret =ˢ "") _ (
              guard-Judged (leb_ℤ p.weight (pos 0)) _ (
                guard-Judged (leb_ℤ p.qps_limit (pos 0)) _
                  (guard-Judged (leb_ℤ p.daily_limit (pos 0)) _ (inl refl)))))))),
)

find_version_sound :
    (k : ℤ) (vs : List ChannelTemplateVersion) (v : ChannelTemplateVersion)
    → find_version k vs ≡ some v
    → (v.id ≡ k) × Memᴰ v vs
unfolding find_version
find_version_sound k [] v h = absurd (ground arith)
find_version_sound k (x ∷ vs) v h = elim (found-cases (eqb_ℤ x.id k) x v (find_version k vs) h) [
  | inl (same, e) ↦
      (subst (λ y. ChannelTemplateVersion.id y ≡ k) e (eqb_ℤ→eq x.id k same), head (sym e))
  | inr (_, later) ↦ let (at, place) = find_version_sound k vs v later in (at, tail place)
]

find_provider_sound :
    (k : ℤ) (ps : List ChannelTemplateProvider) (p : ChannelTemplateProvider)
    → find_provider k ps ≡ some p
    → (p.provider_id ≡ k) × Memᴰ p ps
unfolding find_provider
find_provider_sound k [] p h = absurd (ground arith)
find_provider_sound k (x ∷ ps) p h =
    elim (found-cases (eqb_ℤ x.provider_id k) x p (find_provider k ps) h) [
      | inl (same, e) ↦ (
        subst (λ y. ChannelTemplateProvider.provider_id y ≡ k) e (eqb_ℤ→eq x.provider_id k same),
        head (sym e),
      )
      | inr (_, later) ↦ let (at, place) = find_provider_sound k ps p later in (at, tail place)
    ]

-- What `GetProvider` finds belongs to the provider asked for, in a version of the template that has
-- the number asked for.
get_provider_sound :
    (t : ChannelTemplate) (version_id provider_id : ℤ) (p : ChannelTemplateProvider)
    → get_provider t version_id provider_id ≡ some p
    → (p.provider_id ≡ provider_id)
      × ((v : ChannelTemplateVersion) × ((v.id ≡ version_id)
            × Memᴰ v t.versions
            × Memᴰ p v.providers))
unfolding get_provider get_version
get_provider_sound t version_id provider_id p h =
    elim (Option-cases (find_version version_id t.versions)) [
      | inl nothing ↦ absurd (ground (arith, nothing))
      | inr (v, e) ↦
          let (at, place) = find_version_sound version_id t.versions v e in
          let (own, inside) =
            find_provider_sound provider_id v.providers p (subst (in_version p) e h) in
          (own, (v, (at, place, inside)))
    ]
  where
    in_version : ChannelTemplateProvider → Option ChannelTemplateVersion → Type 0
    in_version p found =
        (elim found [ none ↦ none | some v ↦ find_provider provider_id v.providers ]) ≡ some p
