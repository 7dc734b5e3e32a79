-- ===== src/Api/Totals.antt =====
-- What the batch handlers count.
use go_notification.Prelude.{
  ℕ, zero, suc, ◌+◌, ◌≡◌, refl, sym, ap, subst, ◌∙◌, inl, inr, Bool, true, false, not, ◌&&◌, List,
  [], ◌∷◌, map, Option, none, some, ℤ, ltb, length, length-map, replicate, length-replicate,
  if◌then◌else◌, Bool-cases, Option-cases, some_injective, arith,
}
use mathlib.Core.Option
use go_notification.Errs.{Err, Result, ok, err, Result-cases}
use go_notification.Domain.Notification.{
  Notification, ApiNotification, SendStatus, prepare, canceled, pending, sending, succeeded, failed,
  other_status,
}
use go_notification.Api.Convert.{
  Context, ErrorCode, get_biz_id_from_context, is_system_error, convert_to_grpc_error_code,
  covert_to_grpc_send_status, ApiStatus, pending_status, SendResponse, ApiResponse,
  build_grpc_send_response, failed_response,
}
use go_notification.Api.Server.{Services, Rpc, reply, refused, invalid_argument}
use go_notification.Api.Batch.{
  BatchResponse, batch_size_limit, over_limit, is_nil, is_sending, build_result, built_all, fill,
  count_success, first_is_immediate, batch_reply, build_each, send_built, send_notification_batch,
}

abbrev is_pending : ApiStatus → Bool
is_pending pending_status = true
is_pending _ = false

abbrev counted : Option ApiResponse → ℕ
counted none = 0
counted (some r) = if is_pending r.status then 1 else 0

-- the results whose status is PENDING
abbrev pub count_pending : List (Option ApiResponse) → ℕ
count_pending [] = 0
count_pending (r ∷ rs) = counted r + count_pending rs

count_pending-build_result :
    (each : List (Result Notification)) → count_pending (map build_result each) ≡ 0
count_pending-build_result [] = refl
count_pending-build_result (ok n ∷ each) = omega (arith, count_pending-build_result each)
count_pending-build_result (err e ∷ each) = omega (arith, count_pending-build_result each)

count_pending-replicate :
    (k : ℕ) (c : ErrorCode) (e : Err) → count_pending (replicate k (some (failed_response c e))) ≡ 0
count_pending-replicate zero c e = refl
count_pending-replicate (suc k) c e = omega (arith, count_pending-replicate k c e)

is_pending-covert : (t : SendStatus) → is_pending (covert_to_grpc_send_status t) ≡ is_sending t
unfolding covert_to_grpc_send_status
is_pending-covert prepare = refl
is_pending-covert canceled = refl
is_pending-covert pending = refl
is_pending-covert sending = refl
is_pending-covert succeeded = refl
is_pending-covert failed = refl
is_pending-covert (other_status t) = refl

-- one of the two tests of the loop is false
one_test :
    (immediate sent : Bool)
    → (if sent then 1 else 0)
      ≡ (if immediate && sent then 1 else 0) + (if not immediate && sent then 1 else 0)
one_test true true = refl
one_test true false = refl
one_test false true = refl
one_test false false = refl

counted-build_grpc_send_response :
    (immediate : Bool) (res : SendResponse)
    → counted (some (build_grpc_send_response res none))
      ≡ (if immediate && is_sending res.status then 1 else 0)
        + (if not immediate && is_sending res.status then 1 else 0)
unfolding build_grpc_send_response
counted-build_grpc_send_response immediate res =
    rw (is_pending-covert res.status) (one_test immediate (is_sending res.status))

-- the results that the responses are written over: as many as before, and counted as the loop does
fill-counts :
    (immediate : Bool) (results filled : List (Option ApiResponse)) (responses : List SendResponse)
    → count_pending results ≡ 0
    → fill results responses ≡ some filled
    → (length filled ≡ length results) × (count_pending filled ≡ count_success immediate responses)
unfolding fill count_success
fill-counts immediate results filled [] empty h = (
  ap length (sym (some_injective results filled h)),
  ap count_pending (sym (some_injective results filled h)) ∙ empty,
)
fill-counts immediate [] filled (res ∷ responses) empty h = absurd (ground arith)
fill-counts immediate (r ∷ results) filled (res ∷ responses) empty h =
    elim (Option-cases (fill results responses)) [
      | inl panic ↦ absurd (ground (arith, panic))
      | inr (rest, filled_rest) ↦
          let (long, counts) =
            fill-counts immediate results rest responses (omega arith) filled_rest in
          let e =
            some_injective (first ∷ rest) filled
              (subst (λ o. Option.map (λ rs. first ∷ rs) o ≡ some filled) filled_rest h) in
          (
            ap length (sym e) ∙ ap suc long,
            ap count_pending (sym e)
                ∙ omega (arith, counts, counted-build_grpc_send_response immediate res),
          )
    ]
  where
    first : Option ApiResponse
    first = some (build_grpc_send_response res none)

-- The counts of a response: all its results, and those whose status is PENDING.
abbrev pub Counted : ℕ → Rpc BatchResponse → Type 0
Counted n (reply r) =
    (r.total_count ≡ n) × (length r.results ≡ n) × (r.success_count ≡ count_pending r.results)
Counted n _ = Unit

batch_reply-Counted :
    (notifications : List Notification) (results : List (Option ApiResponse))
    (r : Result (List SendResponse))
    → count_pending results ≡ 0
    → Counted (length results) (batch_reply notifications results r)
unfolding batch_reply
batch_reply-Counted notifications results (err e) empty = elim (Bool-cases (is_system_error e)) [
  | inl system ↦ rw system tt
  | inr business ↦ rw business (
    refl,
    length-replicate _ _,
    sym (count_pending-replicate (length results) (convert_to_grpc_error_code e) e),
  )
]
batch_reply-Counted notifications results (ok responses) empty =
    elim (Option-cases (fill results responses)) [
      | inl panic ↦ rw (panic, batch_reply) tt
      | inr (filled, h) ↦
          let (long, counts) =
            fill-counts (first_is_immediate notifications) results filled responses empty h in
          rw (h, batch_reply) (refl, long, sym counts)
    ]

module _ {ℓ} {S : Type ℓ} (services : Services S) where
  length-build_each :
      (request : List (Option ApiNotification)) (biz_id : ℤ) (s : S)
      → length (build_each services request biz_id s).0 ≡ length request
  unfolding build_each
  length-build_each [] biz_id s = refl
  length-build_each (noti ∷ rest) biz_id s = ap suc (length-build_each rest biz_id _)

  send_built-Counted :
      (each : List (Result Notification)) (s : S)
      → Counted (length each) (send_built services each s).0
  unfolding send_built
  send_built-Counted each s = elim (Option-cases (built_all each)) [
    | inl some_failed ↦
        rw (some_failed, send_built)
          (refl, length-map build_result each, sym (count_pending-build_result each))
    | inr (ns, built) ↦
        rw (built, send_built)
          (subst
            (λ n.
              Counted n
                (batch_reply ns (map build_result each) (services.batch_send_notifications ns s).0))
            (length-map build_result each)
            (batch_reply-Counted ns (map build_result each) _ (count_pending-build_result each)))
  ]

  -- Whatever the services return, a response to SendNotificationBatch has one result for each
  -- notification of the request, its total is their number, and its number of successes is the
  -- number of results whose status is PENDING: those that have been sent are not counted.
  pub send_notification_batch-Counted :
      (ctx : Context) (request : List (Option ApiNotification)) (s : S)
      → Counted (length request) (send_notification_batch services ctx request s).0
  unfolding send_notification_batch
  send_notification_batch-Counted ctx request s =
      elim (Result-cases (get_biz_id_from_context ctx)) [
        | inr (e, unknown) ↦ rw (unknown, send_notification_batch) tt
        | inl (biz_id, known) ↦ rw (known, send_notification_batch) (go biz_id request)
      ]
    where
      go :
          (biz_id : ℤ) (l : List (Option ApiNotification))
          → Counted
              (length l)
              (if is_nil l
                then (reply (record { total_count = 0; success_count = 0; results = [] }), s)
                else if ltb batch_size_limit (length l)
                then (refused invalid_argument over_limit, s)
                else (let (each, s') = build_each services l biz_id s in
                    send_built services each s')).0
      go biz_id [] = (refl, refl, refl)
      go biz_id (x ∷ l) = elim (Bool-cases (ltb batch_size_limit (length (x ∷ l)))) [
        | inl over ↦ rw over tt
        | inr within ↦ rw within (
            subst
              (λ n.
                Counted n
                  (send_built services (build_each services (x ∷ l) biz_id s).0
                    (build_each services (x ∷ l) biz_id s).1).0)
              (length-build_each (x ∷ l) biz_id s)
              (send_built-Counted (build_each services (x ∷ l) biz_id s).0
                (build_each services (x ∷ l) biz_id s).1))
      ]
