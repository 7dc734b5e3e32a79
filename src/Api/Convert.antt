-- ===== src/Api/Convert.antt =====
-- internal/api/grpc/server.go: the codes, statuses and responses that the server makes of the values
-- of the domain; and internal/service/notification/callback/callback.go (getChannel, getStatus), the
-- same conversions for a callback.
use go_notification.Prelude.{Bool, ◌||◌, List, [], Option, none, some, ℤ, pos, if◌then◌else◌}
use go_notification.Errs.{Err, Result, ok, err, Sentinel, is}
use go_notification.Domain.Notification.{
  Channel, sms, email, in_app, other_channel, ApiChannel, channel_unspecified, sms_channel,
  email_channel, in_app_channel, SendStatus, prepare, canceled, pending, sending, succeeded, failed,
  other_status,
}

-- the value that a request's context holds for the business, if any: the type assertion to int64
-- fails on a value of another type
pub data ContextValue : Type 0 where
  int64_value : ℤ → ContextValue
  other_value : ContextValue

abbrev pub Context : Type 0
Context = Option ContextValue

unfoldable pub get_biz_id_from_context : Context → Result ℤ
get_biz_id_from_context (some (int64_value v)) = ok v
get_biz_id_from_context _ = err (List.◌∷◌ Sentinel.biz_id_not_found [])

pub data ErrorCode : Type 0 where
  error_code_unspecified : ErrorCode
  invalid_parameter : ErrorCode
  rate_limited : ErrorCode
  template_not_found : ErrorCode
  channel_disabled : ErrorCode
  create_notification_failed : ErrorCode
  biz_id_not_found : ErrorCode
  notification_not_found : ErrorCode
  no_available_provider : ErrorCode
  no_available_channel : ErrorCode
  send_notification_failed : ErrorCode
  config_not_found : ErrorCode
  no_quota_config : ErrorCode
  no_quota : ErrorCode
  quota_not_found : ErrorCode
  provider_not_found : ErrorCode
  unknown_channel : ErrorCode

unfoldable pub is_system_error : Err → Bool
is_system_error e =
    is e Sentinel.database_error
    || is e Sentinel.external_service_error
    || is e Sentinel.notification_duplicate
    || is e Sentinel.notification_version_mismatch

unfoldable pub convert_to_grpc_error_code : Err → ErrorCode
convert_to_grpc_error_code e =
    if is e Sentinel.invalid_parameter
    then invalid_parameter
    else if is e Sentinel.template_not_found
    then template_not_found
    else if is e Sentinel.channel_disabled
    then channel_disabled
    else if is e Sentinel.rate_limited
    then rate_limited
    else if is e Sentinel.biz_id_not_found
    then biz_id_not_found
    else if is e Sentinel.send_notification_failed
    then send_notification_failed
    else if is e Sentinel.create_notification_failed
    then create_notification_failed
    else if is e Sentinel.notification_not_found
    then notification_not_found
    else if is e Sentinel.no_available_provider
    then no_available_provider
    else if is e Sentinel.no_available_channel
    then no_available_channel
    else if is e Sentinel.config_not_found
    then config_not_found
    else if is e Sentinel.no_quota_config
    then no_quota_config
    else if is e Sentinel.no_quota
    then no_quota
    else if is e Sentinel.quota_not_found
    then quota_not_found
    else if is e Sentinel.provider_not_found
    then provider_not_found
    else if is e Sentinel.unknown_channel
    then unknown_channel
    else error_code_unspecified

pub data ApiStatus : Type 0 where
  send_status_unspecified prepare_status canceled_status pending_status : ApiStatus
  succeeded_status failed_status : ApiStatus

unfoldable pub covert_to_grpc_send_status : SendStatus → ApiStatus
covert_to_grpc_send_status prepare = prepare_status
covert_to_grpc_send_status canceled = canceled_status
covert_to_grpc_send_status sending = pending_status
covert_to_grpc_send_status succeeded = succeeded_status
covert_to_grpc_send_status failed = failed_status
covert_to_grpc_send_status _ = send_status_unspecified

-- the conversion of the callback service
unfoldable pub get_status : SendStatus → ApiStatus
get_status succeeded = succeeded_status
get_status failed = failed_status
get_status canceled = canceled_status
get_status pending = pending_status
get_status prepare = prepare_status
get_status sending = send_status_unspecified
get_status (other_status _) = send_status_unspecified

unfoldable pub get_channel : Channel → ApiChannel
get_channel sms = sms_channel
get_channel email = email_channel
get_channel in_app = in_app_channel
get_channel (other_channel _) = channel_unspecified

-- domain.SendResponse
pub record SendResponse : Type 0 where
  pub notification_id : ℤ
  pub status : SendStatus

-- the message is the text of an error, which is kept here; the empty text is the empty chain
pub record ApiResponse : Type 0 where
  pub notification_id : ℤ
  pub status : ApiStatus
  pub error_code : ErrorCode
  pub error_message : Err

abbrev pub empty_response : ApiResponse
empty_response = record {
  notification_id = pos 0;
  status = send_status_unspecified;
  error_code = error_code_unspecified;
  error_message = [];
}

-- the response of a request that was refused
abbrev pub failed_response : ErrorCode → Err → ApiResponse
failed_response code e = record empty_response {
  error_code = code;
  error_message = e;
  status = failed_status;
}

unfoldable pub build_grpc_send_response : SendResponse → Option Err → ApiResponse
unfolding convert_to_grpc_error_code covert_to_grpc_send_status
build_grpc_send_response res none = record empty_response {
  notification_id = res.notification_id;
  status = covert_to_grpc_send_status res.status;
}
build_grpc_send_response res (some e) = record {
  notification_id = res.notification_id;
  status = failed_status;
  error_code = convert_to_grpc_error_code e;
  error_message = e;
}
