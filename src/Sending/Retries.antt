-- ===== src/Sending/Retries.antt =====
-- What a caller learns of a failed send, what a repeated send looks up, and which notifications get a
-- callback log.
use go_notification.Prelude.{
  ◌≡◌, refl, ◌⊎◌, inl, inr, [], Bool, true, false, List, ◌∷◌, some, pos, if◌then◌else◌, Bool-cases,
}
use go_notification.Errs.{Err, Result, ok, err, Sentinel, is}
use go_notification.Effect.{◌>>=◌}
use go_notification.Domain.Notification
use go_notification.Domain.Notification.{Notification, set_send_time}
use go_notification.Api.Convert.{
  SendResponse, ErrorCode, convert_to_grpc_error_code, invalid_parameter, template_not_found,
  ApiResponse, error_code_unspecified, is_system_error, channel_disabled, rate_limited,
  biz_id_not_found, send_notification_failed,
}
use go_notification.Api.Server
use go_notification.Api.Server.{Rpc, reply, refused, internal, invalid_argument}
use go_notification.Sending.Strategy.{
  Backend, immediate_send, after_create, send_again, create, batch_create, need_create_callback_log,
  as_result,
}

-- the error codes that a synchronous send can answer with
abbrev pub reportable : ErrorCode → Bool
reportable invalid_parameter = true
reportable template_not_found = true
reportable channel_disabled = true
reportable rate_limited = true
reportable biz_id_not_found = true
reportable send_notification_failed = true
reportable _ = false

-- An answer of the server: the error of a system error or of a request without a business, or a response
-- with no code or with one of the six.
abbrev pub Reported : Rpc ApiResponse → Type 0
Reported (reply r) = (r.error_code ≡ error_code_unspecified) ⊎ (reportable r.error_code ≡ true)
Reported (refused internal e) = is_system_error e ≡ true
Reported (refused invalid_argument e) = e ≡ Sentinel.biz_id_not_found ∷ []
Reported _ = ⊥

-- the error of a send, if there is one, has one of the six codes
abbrev Reportable : Result SendResponse → Type 0
Reportable (ok _) = Unit
Reportable (err e) = reportable (convert_to_grpc_error_code e) ≡ true

module _ {ℓ} {S : Type ℓ} (backend : Backend S) where
  -- If the repository returns no notification beside the error of a duplicate, as the code's does,
  -- then a notification sent a second time is looked up by the repository's empty result and not by
  -- its own business and key.
  pub immediate_send-duplicate :
      (n created : Notification) (e : Err) (s s' : S)
      → backend.create (set_send_time (backend.now s).0 n) (backend.now s).1
        ≡ ((created, some e), s')
      → created.biz_id ≡ pos 0
      → created.key ≡ ""
      → is e Sentinel.notification_duplicate ≡ true
      → immediate_send backend n s ≡ (backend.get_by_key (pos 0) "" >>= send_again backend) s'
  unfolding immediate_send after_create
  immediate_send-duplicate n created e s s' stored no_biz no_key duplicate =
      rw (stored, immediate_send, duplicate, no_biz, no_key) refl

  -- For a business that has a callback, a batch is stored with callback logs and a single
  -- notification without one; for a business that has none, the other way round.
  create-batch_create :
      (n : Notification) (ns : List Notification) (s : S)
      → let (needed, s') = need_create_callback_log backend n s in
        if needed
        then (create backend n s ≡ (as_result (backend.create n s').0, (backend.create n s').1))
          × (batch_create backend (n ∷ ns) s ≡ backend.batch_create_with_callback_log (n ∷ ns) s')
        else (create backend n s ≡ backend.create_with_callback_log n s')
          × (batch_create backend (n ∷ ns) s ≡ backend.batch_create (n ∷ ns) s')
  unfolding create batch_create
  create-batch_create n ns s = elim (Bool-cases (need_create_callback_log backend n s).0) [
    | inl yes' ↦ rw (yes', create, batch_create) (refl, refl)
    | inr no' ↦ rw (no', create, batch_create) (refl, refl)
  ]
