-- ===== src/Api/Batch.antt =====
-- internal/api/grpc/server.go: the handlers of several notifications at once.
use Prim.Native.String.{String}
use go_notification.Prelude.{
  ℕ, ◌+◌, Bool, true, false, not, ◌&&◌, List, [], ◌∷◌, map, Option, none, some, ℤ, ltb, length,
  replicate, if◌then◌else◌,
}
use mathlib.Core.Option
use go_notification.Errs.{Err, Result, ok, err, failure}
use go_notification.Domain.Notification.{
  Notification, ApiNotification, is_immediate, SendStatus, sending,
}
use go_notification.Api.Convert.{
  Context, get_biz_id_from_context, is_system_error, convert_to_grpc_error_code,
  build_grpc_send_response, SendResponse, ApiResponse, failed_response, invalid_parameter,
}
use go_notification.Api.Server.{
  Services, Rpc, reply, refused, panicked, invalid_argument, internal, build_notification,
  query_response,
}

abbrev pub batch_size_limit : ℕ
batch_size_limit = 100

abbrev pub over_limit : Err
over_limit = failure 3

-- SendNotificationBatchResponse; a result that is nil is `none`. The counts are at most the limit,
-- which an int32 holds.
pub record BatchResponse : Type 0 where
  pub total_count : ℕ
  pub success_count : ℕ
  pub results : List (Option ApiResponse)

abbrev pub is_sending : SendStatus → Bool
is_sending sending = true
is_sending _ = false

-- the result of a notification that was not built, and nil for the others
abbrev pub build_result : Result Notification → Option ApiResponse
build_result (ok _) = none
build_result (err e) = some (failed_response invalid_parameter e)

-- the notifications that were built, and whether some was not
unfoldable pub built_all : List (Result Notification) → Option (List Notification)
built_all [] = some []
built_all (ok n ∷ rest) = Option.map (λ ns. n ∷ ns) (built_all rest)
built_all (err _ ∷ rest) = none

-- the responses of the send service written over the results: an index out of range panics
unfoldable pub fill :
    List (Option ApiResponse) → List SendResponse → Option (List (Option ApiResponse))
unfolding build_grpc_send_response
fill results [] = some results
fill [] (_ ∷ _) = none
fill (_ ∷ results) (res ∷ responses) =
    Option.map (λ rest. some (build_grpc_send_response res none) ∷ rest) (fill results responses)

-- the two tests of the loop, under the strategy of the first notification
unfoldable pub count_success : Bool → List SendResponse → ℕ
count_success immediate [] = 0
count_success immediate (res ∷ responses) =
    let rest = count_success immediate responses in
    (if immediate && is_sending res.status then 1 else 0)
    + (if not immediate && is_sending res.status then 1 else 0)
    + rest

abbrev pub first_is_immediate : List Notification → Bool
first_is_immediate [] = false
first_is_immediate (n ∷ _) = is_immediate n

-- what SendNotificationBatch answers when the send service has returned
unfoldable pub batch_reply :
    List Notification → List (Option ApiResponse) → Result (List SendResponse) → Rpc BatchResponse
unfolding fill count_success
batch_reply notifications results (err e) =
    if is_system_error e
    then refused internal e
    else reply (record {
      total_count = length results;
      success_count = 0;
      results =
          replicate (length results) (some (failed_response (convert_to_grpc_error_code e) e));
    })
batch_reply notifications results (ok responses) = elim (fill results responses) [
  | none ↦ panicked
  | some filled ↦ reply (record {
    total_count = length results;
    success_count = count_success (first_is_immediate notifications) responses;
    results = filled;
  })
]

abbrev pub is_nil {ℓ} : {A : Type ℓ} → List A → Bool
is_nil [] = true
is_nil (_ ∷ _) = false

unfoldable pub ids_reply : Result (List ℤ) → Rpc (List ℤ)
ids_reply (ok ids) = reply ids
ids_reply (err e) = if is_system_error e then refused internal e else refused invalid_argument e

unfoldable pub queries_reply : Result (List Notification) → Rpc (List ApiResponse)
queries_reply (err e) = refused internal e
queries_reply (ok notifications) = reply (map query_response notifications)

module _ {ℓ} {S : Type ℓ} (services : Services S) where
  -- every notification is built, in order, whether or not an earlier one was
  unfoldable pub build_each : List (Option ApiNotification) → ℤ → S → List (Result Notification) × S
  build_each [] biz_id s = ([], s)
  build_each (noti ∷ rest) biz_id s =
      let (built, s') = build_notification services noti biz_id s in
      let (others, s'') = build_each rest biz_id s' in (built ∷ others, s'')

  -- the part of SendNotificationBatch after the loop that builds
  unfoldable pub send_built : List (Result Notification) → S → Rpc BatchResponse × S
  unfolding built_all batch_reply
  send_built each s = elim (built_all each) [
    | none ↦ (
      reply (record {
        total_count = length each;
        success_count = 0;
        results = map build_result each;
      }),
      s,
    )
    | some notifications ↦
        let (responses, s') = services.batch_send_notifications notifications s in
        (batch_reply notifications (map build_result each) responses, s')
  ]

  -- the request's notifications; a nil request has none
  unfoldable pub send_notification_batch :
      Context → List (Option ApiNotification) → S → Rpc BatchResponse × S
  unfolding build_each send_built
  send_notification_batch ctx request s = elim (get_biz_id_from_context ctx) [
    | err e ↦ (refused invalid_argument e, s)
    | ok biz_id ↦
        if is_nil request
        then (reply (record { total_count = 0; success_count = 0; results = [] }), s)
        else if ltb batch_size_limit (length request)
        then (refused invalid_argument over_limit, s)
        else let (each, s') = build_each request biz_id s in send_built each s'
  ]

  -- the loop of SendNotificationBatchAsync returns at the first notification that is not built
  unfoldable pub build_until_error :
      List (Option ApiNotification) → ℤ → S → Result (List Notification) × S
  build_until_error [] biz_id s = (ok [], s)
  build_until_error (noti ∷ rest) biz_id s =
      let (built, s') = build_notification services noti biz_id s in
      let (others, s'') = build_until_error rest biz_id s' in
      elim built [
        | err e ↦ (err e, s')
        | ok n ↦ (elim others [ err e ↦ err e | ok ns ↦ ok (n ∷ ns) ], s'')
      ]

  unfoldable pub send_notification_batch_async :
      Context → List (Option ApiNotification) → S → Rpc (List ℤ) × S
  unfolding build_until_error ids_reply
  send_notification_batch_async ctx request s = elim (get_biz_id_from_context ctx) [
    | err e ↦ (refused invalid_argument e, s)
    | ok biz_id ↦
        if is_nil request
        then (reply [], s)
        else if ltb batch_size_limit (length request)
        then (refused invalid_argument over_limit, s)
        else let (built, s') = build_until_error request biz_id s in
          elim built [
            | err e ↦ (refused invalid_argument e, s')
            | ok notifications ↦
                let (ids, s'') = services.batch_send_notifications_async notifications s' in
                (ids_reply ids, s'')
          ]
  ]

  -- the request's keys; `none` is the nil request
  unfoldable pub batch_query_notifications :
      Context → Option (List String) → S → Rpc (List ApiResponse) × S
  unfolding queries_reply
  batch_query_notifications ctx none s = (refused invalid_argument (failure 2), s)
  batch_query_notifications ctx (some keys) s =
      if is_nil keys
      then (reply [], s)
      else if ltb batch_size_limit (length keys)
      then (refused invalid_argument over_limit, s)
      else elim (get_biz_id_from_context ctx) [
        | err e ↦ (refused invalid_argument e, s)
        | ok biz_id ↦
            let (found, s') = services.get_by_keys biz_id keys s in (queries_reply found, s')
      ]
