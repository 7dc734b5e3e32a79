-- ===== src/Templates/Review.antt =====
-- internal/service/template/manage/manage.go: the review of templates by their providers.
use Prim.Native.String.{String}
use Prim.Native.Char.{code}
use text.Mathlib.Text.{◌==◌ as ◌=ˢ◌}
use go_notification.Prelude.{
  ℕ, suc, Bool, true, false, not, ◌&&◌, List, [], ◌∷◌, ◌++◌, map, Option, none, some, ℤ, pos, eqb_ℤ,
  ◌==◌, if◌then◌else◌,
}
use go_notification.Errs.{Sentinel, ok, err, failure}
use go_notification.Effect.{Effect, pure, wrap, ◌>>=◌, ◌>>◌}
use go_notification.Sharding.{Bytes, decimal}
use go_notification.Domain.Notification.{Channel, sms, is_empty}
use go_notification.Repository.Notifications.{same_channel}
use go_notification.Domain.Template.{
  AuditStatus, in_review, rejected, approved, ChannelTemplate, ChannelTemplateVersion,
  ChannelTemplateProvider,
}
use go_notification.Templates.Backend.{TemplateServices, Client, CreateTemplateReq, TemplateStatus}
use go_notification.Templates.Manage.{under, is_pending_or_rejected}

-- the code points of a text
abbrev pub codes : String → Bytes
codes String.[] = []
codes (String.◌∷◌ c s) = code c ∷ codes s

-- the loop of a regular expression: whether a closing brace follows
unfoldable pub closes : Bytes → Bool
closes [] = false
closes (b ∷ bs) = let later = closes bs in if b == b'}' then true else later

-- The replacement of `\$\{[^}]+\}` by a counter, from left to right; `inside` says that the text up to
-- the next closing brace belongs to a match.
unfoldable pub replace_from : Bool → ℕ → Bytes → Bytes
unfolding closes
replace_from inside counter [] = []
replace_from true counter (b ∷ bs) = replace_from (not (b == b'}')) counter bs
replace_from false counter (b ∷ []) = b ∷ []
replace_from false counter (b ∷ c ∷ []) = b ∷ c ∷ []
replace_from false counter (b ∷ c ∷ d ∷ bs) =
    let matched = b == b'$' && c == b'{' && not (d == b'}') && closes (d ∷ bs) in
    let number = suc counter in
    let replaced = (b'{' ∷ decimal number) ++ (b'}' ∷ replace_from true number (c ∷ d ∷ bs)) in
    let kept = b ∷ replace_from false counter (c ∷ d ∷ bs) in if matched then replaced else kept

unfoldable pub replace_placeholders : Bytes → ChannelTemplateProvider → Bytes
unfolding replace_from
replace_placeholders content provider =
    if provider.provider_name =ˢ "tencentcloud" then replace_from false 0 content else content

-- client.AuditStatus.ToDomain
unfoldable pub to_domain_status : ℤ → AuditStatus
to_domain_status a =
    if eqb_ℤ a (pos 1) then approved else if eqb_ℤ a (pos 2) then rejected else in_review

-- an association of which only what is to be updated is set
abbrev pub audit_info : ℤ → String → String → AuditStatus → ℤ → ChannelTemplateProvider
audit_info id request_id provider_template_id status now = record {
  id = id;
  template_id = pos 0;
  template_version_id = pos 0;
  provider_id = pos 0;
  provider_name = "";
  provider_channel = Channel.other_channel "";
  request_id = request_id;
  provider_template_id = provider_template_id;
  audit_status = status;
  reject_reason = "";
  last_review_submission_time = now;
  ctime = pos 0;
  utime = pos 0;
}

-- a group of associations of one channel and one provider
pub record Group : Type 0 where
  pub channel : Channel
  pub name : String
  pub members : List ChannelTemplateProvider

-- an association joins its group, which may be new
unfoldable pub join : ChannelTemplateProvider → List Group → List Group
unfolding same_channel
join p [] = record { channel = p.provider_channel; name = p.provider_name; members = p ∷ [] } ∷ []
join p (g ∷ gs) =
    let rest = join p gs in
    if same_channel g.channel p.provider_channel && (g.name =ˢ p.provider_name)
    then record g { members = g.members ++ (p ∷ []) } ∷ gs
    else g ∷ rest

unfoldable pub group_all : List ChannelTemplateProvider → List Group → List Group
unfolding join
group_all [] gs = gs
group_all (p ∷ ps) gs = group_all ps (join p gs)

-- the map from the vendor's templates to the associations, a later one in the place of an earlier one
unfoldable pub by_template_id :
    String → List ChannelTemplateProvider → Option ChannelTemplateProvider
by_template_id template_id [] = none
by_template_id template_id (p ∷ ps) = elim (by_template_id template_id ps) [
  | some later ↦ some later
  | none ↦ if p.provider_template_id =ˢ template_id then some p else none
]

-- the associations with the vendor's results; a result for an unknown template is passed over
unfoldable pub updates :
    List ChannelTemplateProvider → List TemplateStatus → List ChannelTemplateProvider
unfolding by_template_id to_domain_status
updates ps [] = []
updates ps (r ∷ rs) =
    let rest = updates ps rs in
    elim (by_template_id r.template_id ps) [
      | none ↦ rest
      | some p ↦
          record p {
            request_id = r.request_id;
            audit_status = to_domain_status r.audit_status;
            reject_reason = r.reason;
          }
          ∷ rest
    ]

module _ {ℓ} {S : Type ℓ} (t : TemplateServices S) where
  unfoldable pub get_sms_client : String → Effect S (Client S)
  get_sms_client provider_name s = elim (t.sms_client provider_name) [
    | none ↦ (err (failure 0), s)
    | some cli ↦ (ok cli, s)
  ]

  -- the request for the review of a version by a provider
  unfoldable pub create_req :
      ChannelTemplate → ChannelTemplateVersion → ChannelTemplateProvider → CreateTemplateReq
  unfolding replace_placeholders
  create_req template version provider = record {
    template_name = version.name;
    template_content = replace_placeholders (codes version.content) provider;
    template_type = template.business_type;
    remark = version.remark;
  }

  unfoldable pub submit :
      ChannelTemplate → ChannelTemplateVersion → ChannelTemplateProvider → Effect S (Unit {0})
  unfolding same_channel get_sms_client create_req
  submit template version provider =
      if not (same_channel provider.provider_channel sms)
      then pure tt
      else wrap (under Sentinel.submit_version_for_provider_review_failed) (
          get_sms_client provider.provider_name >>= λ cli.
          cli.create (create_req template version provider) >>= λ resp. λ s.
            let (now, s') = t.now_unix s in
            t.repo.update_provider_audit
              (audit_info provider.id resp.request_id resp.template_id in_review now) s')

  -- the loop over the associations, whose errors are dropped
  unfoldable pub submit_each :
      ChannelTemplate → ChannelTemplateVersion → List ChannelTemplateProvider → S → S
  unfolding submit
  submit_each template version [] s = s
  submit_each template version (p ∷ ps) s =
      submit_each template version ps
        (if is_pending_or_rejected p.audit_status then (submit template version p s).1 else s)

  unfoldable pub submit_for_provider_review : ℤ → Effect S (Unit {0})
  unfolding submit_each
  submit_for_provider_review version_id =
      t.repo.get_template_version_by_id version_id >>= λ version.
      wrap (under Sentinel.submit_version_for_provider_review_failed)
        (t.repo.get_template_by_id version.channel_template_id)
      >>= λ template.
          wrap (under Sentinel.submit_version_for_provider_review_failed)
            (t.repo.get_providers template.id version_id)
          >>= λ providers. λ s. (ok tt, submit_each template version providers s)

  unfoldable pub batch_submit_for_provider_review : List ℤ → Effect S (Unit {0})
  unfolding submit_for_provider_review
  batch_submit_for_provider_review [] s = (ok tt, s)
  batch_submit_for_provider_review (id ∷ ids) s =
      batch_submit_for_provider_review ids (submit_for_provider_review id s).1

  -- a group has a first member
  unfoldable pub query_sms_group : String → List ChannelTemplateProvider → Effect S (Unit {0})
  unfolding get_sms_client updates
  query_sms_group name providers =
      wrap (under Sentinel.update_template_provider_audit_status_failed) (
        get_sms_client name >>= λ cli.
        cli.batch_query (map (λ p. ChannelTemplateProvider.provider_template_id p) providers))
      >>= λ results. t.repo.batch_update_providers_audit (updates providers results)

  unfoldable pub query_groups : List Group → Effect S (Unit {0})
  unfolding query_sms_group same_channel
  query_groups [] = pure tt
  query_groups (g ∷ gs) =
      (if same_channel g.channel sms then query_sms_group g.name g.members else pure tt)
      >> query_groups gs

  -- `order` is the order in which the maps of groups are gone through
  unfoldable pub batch_query_and_update_provider_audit_info :
      (List Group → List Group) → List ChannelTemplateProvider → Effect S (Unit {0})
  unfolding group_all query_groups
  batch_query_and_update_provider_audit_info order providers =
      if is_empty providers then pure tt else query_groups (order (group_all providers []))

  unfoldable pub get_pending_or_in_review_providers :
      ℤ → ℤ → ℤ → Effect S (List ChannelTemplateProvider × ℤ)
  get_pending_or_in_review_providers offset limit utime =
      t.repo.get_pending_or_in_review offset limit utime
