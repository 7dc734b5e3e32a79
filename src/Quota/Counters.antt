-- ===== src/Quota/Counters.antt =====
-- internal/repository/cache/redis/quota.go: the counters of quota in Redis.
use go_notification.Prelude.{
  ◌*◌, Bool, List, ◌++◌, map, replicate, length, Option, none, some, ℤ, pos, leb_ℤ, wrap32,
  if◌then◌else◌,
}
use go_notification.Errs.{Err, Result, ok, err, failure}
use go_notification.Effect.{Effect, bind_result}
use go_notification.Domain.Notification.{Channel, is_empty}
use go_notification.Repository.Notifications.{IncrItem}

-- domain.Quota
pub record Quota : Type 0 where
  pub biz_id : ℤ
  pub quota : ℤ
  pub channel : Channel

-- The text "quota:<business>:<channel>", by its parts.
abbrev pub QuotaKey : Type 0
QuotaKey = ℤ × Channel

abbrev pub key : ℤ → Channel → QuotaKey
key biz_id channel = (biz_id, channel)

-- an argument of MSET: a nil interface, or a quota itself
pub data Argument : Type 0 where
  nothing : Argument
  whole : Quota → Argument

-- The commands of Redis, and its three scripts. A script answers with a text, or with something else.
pub record QuotaCommands {ℓ} (S : Type ℓ) : Type ℓ where
  pub mset : List Argument → Effect S (Unit {0})
  pub get_int : QuotaKey → Effect S ℤ
  pub incr_script : QuotaKey → ℤ → Effect S (Unit {0})
  pub decr_by : QuotaKey → ℤ → Effect S ℤ
  pub batch_incr_script : List QuotaKey → List ℤ → Effect S (Unit {0})
  pub batch_decr_script : List QuotaKey → List ℤ → Effect S (Option Bool)

abbrev pub quota_less_then_zero : Err
quota_less_then_zero = failure 7

abbrev pub wrong_answer : Err
wrong_answer = failure 8

abbrev pub keys_of : List IncrItem → List QuotaKey
keys_of = map (λ item. key (IncrItem.biz_id item) (IncrItem.channel item))

abbrev pub quotas_of : List IncrItem → List ℤ
quotas_of = map (λ item. IncrItem.val item)

-- the answer of the script for a batch, by whether its text is empty
abbrev pub batch_answer : Option Bool → Result (Unit {0})
batch_answer none = err wrong_answer
batch_answer (some is_empty_text) = if is_empty_text then err quota_less_then_zero else ok tt

module _ {ℓ} {S : Type ℓ} (q : QuotaCommands S) where
  -- The slice of the arguments has twice as many nil values as there are quotas before the first.
  unfoldable pub create_or_update : List Quota → Effect S (Unit {0})
  create_or_update quotas = q.mset (replicate (2 * length quotas) nothing ++ map whole quotas)

  unfoldable pub find_quota : ℤ → Channel → Effect S Quota
  find_quota biz_id channel s =
      bind_result (q.get_int (key biz_id channel) s)
        λ quota s'. (ok (record { biz_id = biz_id; quota = wrap32 quota; channel = channel }), s')

  unfoldable pub incr : ℤ → Channel → ℤ → Effect S (Unit {0})
  incr biz_id channel quota = q.incr_script (key biz_id channel) quota

  unfoldable pub decr : ℤ → Channel → ℤ → Effect S (Unit {0})
  decr biz_id channel quota s =
      bind_result (q.decr_by (key biz_id channel) quota s)
        λ res s'. ((if leb_ℤ res (pos 0) then err quota_less_then_zero else ok tt), s')

  unfoldable pub muti_incr : List IncrItem → Effect S (Unit {0})
  muti_incr items s =
      if is_empty items then (ok tt, s) else q.batch_incr_script (keys_of items) (quotas_of items) s

  unfoldable pub muti_decr : List IncrItem → Effect S (Unit {0})
  muti_decr items s =
      bind_result (q.batch_decr_script (keys_of items) (quotas_of items) s)
        λ answer s'. (batch_answer answer, s')
