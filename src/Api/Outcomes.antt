-- ===== src/Api/Outcomes.antt =====
-- What the gRPC server answers, whatever its services do.
use go_notification.Prelude.{
  ◌≡◌, ◌≢◌, ◌↔◌, refl, subst, inl, inr, Bool, true, false, not, Option, none, some, ℤ,
  if◌then◌else◌, Bool-cases, arith,
}
use go_notification.Errs.{Err, Result, ok, err, ◌>>=◌, Result-cases}
use go_notification.Domain.Strategy.{invalid}
use go_notification.Domain.Notification.{
  Notification, ApiNotification, new_notification_from_api, get_domain_channel, parsed, ApiChannel,
  channel_unspecified, sms_channel, email_channel, in_app_channel, SendStatus, prepare, canceled,
  pending, sending, succeeded, failed, other_status,
}
use go_notification.Domain.Template.{ChannelTemplate, has_published}
use go_notification.Api.Convert.{
  Context, get_biz_id_from_context, is_system_error, convert_to_grpc_error_code,
  covert_to_grpc_send_status, get_status, SendResponse, ApiResponse, failed_response,
  invalid_parameter, empty_response,
}
use go_notification.Api.Server.{
  Services, Rpc, reply, with_template, build_notification, async_reply, send_notification_async,
}

-- The statuses of a response and of a callback agree, but for a notification that waits or is
-- being sent.
get_status-covert_to_grpc_send_status :
    (s : SendStatus)
    → (get_status s ≡ covert_to_grpc_send_status s) ↔ ((s ≢ pending) × (s ≢ sending))
unfolding get_status covert_to_grpc_send_status
get_status-covert_to_grpc_send_status prepare = ground arith
get_status-covert_to_grpc_send_status canceled = ground arith
get_status-covert_to_grpc_send_status pending = ground arith
get_status-covert_to_grpc_send_status sending = ground arith
get_status-covert_to_grpc_send_status succeeded = ground arith
get_status-covert_to_grpc_send_status failed = ground arith
get_status-covert_to_grpc_send_status (other_status t) = ground arith

-- the errors of the construction of a notification are those of an invalid parameter
abbrev OnlyInvalid {ℓ} : {A : Type ℓ} → Result A → Type 0
OnlyInvalid (ok _) = Unit
OnlyInvalid (err e) = e ≡ invalid

OnlyInvalid-then {ℓ κ} :
    {A : Type ℓ} {B : Type κ} (m : Result A) (f : A → Result B)
    → OnlyInvalid m
    → ((a : A) → OnlyInvalid (f a))
    → OnlyInvalid (m >>= f)
OnlyInvalid-then (ok a) f h next = next a
OnlyInvalid-then (err e) f h next = h

parsed-OnlyInvalid : (id : Option ℤ) → OnlyInvalid (parsed id)
parsed-OnlyInvalid none = refl
parsed-OnlyInvalid (some id) = tt

get_domain_channel-OnlyInvalid : (c : ApiChannel) → OnlyInvalid (get_domain_channel c)
unfolding get_domain_channel
get_domain_channel-OnlyInvalid channel_unspecified = refl
get_domain_channel-OnlyInvalid sms_channel = tt
get_domain_channel-OnlyInvalid email_channel = tt
get_domain_channel-OnlyInvalid in_app_channel = tt

new_notification_from_api-OnlyInvalid :
    (noti : Option ApiNotification) → OnlyInvalid (new_notification_from_api noti)
unfolding new_notification_from_api
new_notification_from_api-OnlyInvalid none = refl
new_notification_from_api-OnlyInvalid (some n) =
    OnlyInvalid-then (parsed n.template_id) _ (parsed-OnlyInvalid n.template_id) (λ tid.
      OnlyInvalid-then (get_domain_channel n.channel) _ (get_domain_channel-OnlyInvalid n.channel)
        (λ c. tt))

-- A response names an error that is not one of the system, under that error's code; a response
-- without an error names no code.
abbrev pub Consistent : Rpc ApiResponse → Type 0
Consistent (reply r) =
    (is_system_error r.error_message ≡ false)
    × (r.error_code ≡ convert_to_grpc_error_code r.error_message)
Consistent _ = Unit

refused_build-Consistent :
    (e : Err)
    → e ≡ invalid
    → (Consistent (reply (failed_response invalid_parameter e)))
      × (Consistent
          (reply (record empty_response { error_code = invalid_parameter; error_message = e })))
unfolding is_system_error convert_to_grpc_error_code
refused_build-Consistent e h = rw h ((refl, refl), (refl, refl))

module _ {ℓ} {S : Type ℓ} (services : Services S) where
  with_template-OnlyInvalid :
      (biz_id : ℤ) (n : Notification) (found : Result ChannelTemplate)
      → OnlyInvalid (with_template biz_id n found)
  unfolding with_template
  with_template-OnlyInvalid biz_id n (err e) = refl
  with_template-OnlyInvalid biz_id n (ok tmpl) = go (has_published tmpl)
    where
      go :
          (b : Bool)
          → OnlyInvalid (
              if not b
              then err invalid
              else ok (record n {
                biz_id = biz_id;
                template = record (n.template) { version_id = tmpl.active_version_id };
              }))
      go true = tt
      go false = refl

  build_notification-OnlyInvalid :
      (noti : Option ApiNotification) (biz_id : ℤ) (s : S)
      → OnlyInvalid (build_notification services noti biz_id s).0
  unfolding build_notification
  build_notification-OnlyInvalid noti biz_id s =
      elim (Result-cases (new_notification_from_api noti)) [
        | inl (n, built) ↦
            rw (built, build_notification)
              (with_template-OnlyInvalid biz_id n (services.get_template_by_id n.template.id s).0)
        | inr (e, refusal) ↦
            rw (refusal, build_notification)
              (subst OnlyInvalid refusal (new_notification_from_api-OnlyInvalid noti))
      ]

  async_reply-Consistent : (r : Result SendResponse) → Consistent (async_reply r)
  unfolding async_reply is_system_error convert_to_grpc_error_code
  async_reply-Consistent (ok res) = (refl, refl)
  async_reply-Consistent (err e) = elim (Bool-cases (is_system_error e)) [
    | inl system ↦ rw system tt
    | inr business ↦ rw business (business, refl)
  ]

  -- Whatever the services return, a response to SendNotificationAsync names an error that is not one
  -- of the system, under that error's code, or no error and no code.
  send_notification_async-Consistent :
      (ctx : Context) (request : Option ApiNotification) (s : S)
      → Consistent (send_notification_async services ctx request s).0
  unfolding send_notification_async
  send_notification_async-Consistent ctx request s =
      elim (Result-cases (get_biz_id_from_context ctx)) [
        | inr (e, unknown) ↦ rw (unknown, send_notification_async) tt
        | inl (biz_id, known) ↦
            elim (Result-cases (build_notification services request biz_id s).0) [
              | inl (n, built) ↦
                  rw (known, send_notification_async, built) (async_reply-Consistent _)
              | inr (e, refusal) ↦
                  rw (known, send_notification_async, refusal)
                    ((refused_build-Consistent e (
                      subst OnlyInvalid refusal
                        (build_notification-OnlyInvalid request biz_id s))).1)
            ]
      ]
