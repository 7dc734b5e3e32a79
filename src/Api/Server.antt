-- ===== src/Api/Server.antt =====
-- internal/api/grpc/server.go: the handlers of single notifications, transactions and queries. A
-- request that the code does not compare with nil is given, as gRPC gives it.
use Prim.Native.String.{String}
use text.Mathlib.Text.{◌==◌ as ◌=ˢ◌}
use go_notification.Prelude.{not, List, [], ◌∷◌, Option, none, some, ℤ, pos, if◌then◌else◌}
use go_notification.Errs.{Err, Result, ok, err, failure}
use go_notification.Effect.{Effect}
use go_notification.Domain.Strategy.{invalid}
use go_notification.Domain.Notification.{
  Notification, ApiNotification, new_notification_from_api, prepare,
}
use go_notification.Domain.Template.{ChannelTemplate, has_published}
use go_notification.Domain.Tx.{TxNotification, TxNotificationStatus}
use go_notification.Api.Convert.{
  Context, get_biz_id_from_context, is_system_error, convert_to_grpc_error_code,
  covert_to_grpc_send_status, SendResponse, ApiResponse, empty_response, failed_response,
  invalid_parameter,
}

-- the services that the server is made of
pub record Services {ℓ} (S : Type ℓ) : Type ℓ where
  pub send_notification : Notification → Effect S SendResponse
  pub send_notification_async : Notification → Effect S SendResponse
  pub batch_send_notifications : List Notification → Effect S (List SendResponse)
  pub batch_send_notifications_async : List Notification → Effect S (List ℤ)
  pub prepare_tx : Notification → Effect S ℤ
  pub commit_tx : ℤ → String → Effect S (Unit {0})
  pub cancel_tx : ℤ → String → Effect S (Unit {0})
  pub get_by_keys : ℤ → List String → Effect S (List Notification)
  pub get_template_by_id : ℤ → Effect S ChannelTemplate

pub data StatusCode : Type 0 where
  invalid_argument internal : StatusCode

-- What a handler returns: a response, an error with a status code, an error of a service passed on,
-- or a panic.
pub data Rpc {ℓ} (A : Type ℓ) : Type ℓ where
  reply : A → Rpc A
  refused : StatusCode → Err → Rpc A
  passed_on : Err → Rpc A
  panicked : Rpc A

-- the response beside an error is not sent
abbrev pub reply_or_error {ℓ} : {A : Type ℓ} → A → Result (Unit {0}) → Rpc A
reply_or_error a (ok _) = reply a
reply_or_error a (err e) = passed_on e

-- the part of buildNotification after the template service has answered
unfoldable pub with_template : ℤ → Notification → Result ChannelTemplate → Result Notification
with_template biz_id n (err _) = err invalid
with_template biz_id n (ok tmpl) =
    if not (has_published tmpl)
    then err invalid
    else ok (record n {
      biz_id = biz_id;
      template = record (n.template) { version_id = tmpl.active_version_id };
    })

-- what SendNotification answers when the send service has returned
unfoldable pub send_reply : Result SendResponse → Rpc ApiResponse
send_reply (err e) =
    if is_system_error e
    then refused internal e
    else reply (failed_response (convert_to_grpc_error_code e) e)
send_reply (ok result) = reply (record empty_response {
  notification_id = result.notification_id;
  status = covert_to_grpc_send_status result.status;
})

-- SendNotificationAsync's response has no status
unfoldable pub async_reply : Result SendResponse → Rpc ApiResponse
async_reply (err e) =
    if is_system_error e
    then refused internal e
    else reply
        (record empty_response { error_code = convert_to_grpc_error_code e; error_message = e })
async_reply (ok result) = reply (record empty_response { notification_id = result.notification_id })

abbrev pub query_response : Notification → ApiResponse
query_response n = record empty_response {
  notification_id = n.id;
  status = covert_to_grpc_send_status n.status;
}

unfoldable pub first_reply : Result (List Notification) → Rpc ApiResponse
first_reply (err e) = refused internal e
first_reply (ok []) = reply empty_response
first_reply (ok (n ∷ _)) = reply (query_response n)

module _ {ℓ} {S : Type ℓ} (services : Services S) where
  unfoldable pub build_notification : Option ApiNotification → ℤ → Effect S Notification
  unfolding with_template
  build_notification noti biz_id s = elim (new_notification_from_api noti) [
    | err e ↦ (err e, s)
    | ok n ↦
        let (found, s') = services.get_template_by_id n.template.id s in
        (with_template biz_id n found, s')
  ]

  unfoldable pub send_notification : Context → Option ApiNotification → S → Rpc ApiResponse × S
  unfolding build_notification send_reply
  send_notification ctx request s = elim (get_biz_id_from_context ctx) [
    | err e ↦ (refused invalid_argument e, s)
    | ok biz_id ↦
        let (built, s') = build_notification request biz_id s in
        elim built [
          | err e ↦ (reply (failed_response invalid_parameter e), s')
          | ok n ↦ let (result, s'') = services.send_notification n s' in (send_reply result, s'')
        ]
  ]

  unfoldable pub send_notification_async :
      Context → Option ApiNotification → S → Rpc ApiResponse × S
  unfolding build_notification async_reply
  send_notification_async ctx request s = elim (get_biz_id_from_context ctx) [
    | err e ↦ (refused invalid_argument e, s)
    | ok biz_id ↦
        let (built, s') = build_notification request biz_id s in
        elim built [
          | err e ↦ (
            reply (record empty_response { error_code = invalid_parameter; error_message = e }),
            s',
          )
          | ok n ↦
              let (result, s'') = services.send_notification_async n s' in (async_reply result, s'')
        ]
  ]

  -- a TxNotification whose other fields are zero
  unfoldable pub build_tx_notification : Option ApiNotification → ℤ → Effect S TxNotification
  unfolding build_notification
  build_tx_notification none biz_id s = (err (failure 1), s)
  build_tx_notification (some noti) biz_id s =
      let (built, s') = build_notification (some noti) biz_id s in
      elim built [
        | err e ↦ (err e, s')
        | ok n ↦ (
          ok (record {
            tx_id = pos 0;
            notification = record n { status = prepare };
            biz_id = biz_id;
            key = noti.key;
            status = TxNotificationStatus.prepare;
            check_count = pos 0;
            next_check_time = pos 0;
            ctime = pos 0;
            utime = pos 0;
          }),
          s',
        )
      ]

  unfoldable pub prepare_tx : Context → Option ApiNotification → S → Rpc (Unit {0}) × S
  unfolding build_tx_notification
  prepare_tx ctx request s = elim (get_biz_id_from_context ctx) [
    | err e ↦ (refused invalid_argument e, s)
    | ok biz_id ↦
        let (built, s') = build_tx_notification request biz_id s in
        elim built [
          | err e ↦ (refused invalid_argument e, s')
          | ok txn ↦
              let (result, s'') = services.prepare_tx txn.notification s' in
              (elim result [ ok _ ↦ reply tt | err e ↦ passed_on e ], s'')
        ]
  ]

  unfoldable pub commit_tx : Context → String → S → Rpc (Unit {0}) × S
  commit_tx ctx key s = elim (get_biz_id_from_context ctx) [
    | err e ↦ (refused invalid_argument e, s)
    | ok biz_id ↦
        let (result, s') = services.commit_tx biz_id key s in (reply_or_error tt result, s')
  ]

  unfoldable pub cancel_tx : Context → String → S → Rpc (Unit {0}) × S
  cancel_tx ctx key s = elim (get_biz_id_from_context ctx) [
    | err e ↦ (refused invalid_argument e, s)
    | ok biz_id ↦
        let (result, s') = services.cancel_tx biz_id key s in (reply_or_error tt result, s')
  ]

  -- the request's key; `none` is the nil request
  unfoldable pub query_notification : Context → Option String → S → Rpc ApiResponse × S
  unfolding first_reply
  query_notification ctx none s = (refused invalid_argument (failure 2), s)
  query_notification ctx (some key) s =
      if key =ˢ ""
      then (refused invalid_argument (failure 2), s)
      else elim (get_biz_id_from_context ctx) [
        | err e ↦ (refused invalid_argument e, s)
        | ok biz_id ↦
            let (found, s') = services.get_by_keys biz_id (key ∷ []) s in (first_reply found, s')
      ]
