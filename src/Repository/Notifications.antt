-- ===== src/Repository/Notifications.antt =====
-- internal/repository/notification.go: the operations that take and give back quota, and the ones
-- that read.
use Prim.Native.String.{String}
use go_notification.Prelude.{
  Bool, true, false, ◌&&◌, List, [], ◌∷◌, map, Option, none, some, ℤ, pos, ◌+ℤ◌, eqb_ℤ, wrap32,
  if◌then◌else◌,
}
use text.Mathlib.Text.{◌==◌ as ◌=ˢ◌}
use go_notification.Errs.{Err, Result, ok, err}
use go_notification.Effect.{Effect}
use go_notification.Domain.Notification.{
  Notification, Channel, sms, email, in_app, other_channel, other_status, zero_time, is_empty,
}
use go_notification.Repository.Entities.{Json, Entity, to_entity, to_domain, no_strategy}

-- cache.IncrItem
pub record IncrItem : Type 0 where
  pub biz_id : ℤ
  pub channel : Channel
  pub val : ℤ

-- the table of notifications and the quota cache; the rows of a batch come back beside an error too
pub record Store {ℓ} (S : Type ℓ) : Type ℓ where
  pub decr : ℤ → Channel → ℤ → Effect S (Unit {0})
  pub incr : ℤ → Channel → ℤ → Effect S (Unit {0})
  pub muti_decr : List IncrItem → Effect S (Unit {0})
  pub muti_incr : List IncrItem → Effect S (Unit {0})
  pub create : Entity → Effect S Entity
  pub create_with_callback_log : Entity → Effect S Entity
  pub batch_create : List Entity → S → (List Entity × Option Err) × S
  pub batch_create_with_callback_log : List Entity → S → (List Entity × Option Err) × S
  pub get_by_key : ℤ → String → S → (Entity × Option Err) × S
  pub get_by_keys : ℤ → List String → Effect S (List Entity)
  pub cas_status : Entity → Effect S (Unit {0})
  pub batch_update : List Entity → List Entity → Effect S (Unit {0})
  pub mark_success : Entity → Effect S (Unit {0})
  pub mark_failed : Entity → Effect S (Unit {0})

-- the zero value of a Notification
abbrev pub empty_notification : Notification
empty_notification = record {
  id = pos 0;
  biz_id = pos 0;
  key = "";
  receivers = [];
  channel = other_channel "";
  template = record { id = pos 0; version_id = pos 0; params = []; version = pos 0 };
  status = other_status "";
  scheduled_stime = zero_time;
  scheduled_etime = zero_time;
  version = pos 0;
  send_strategy_config = no_strategy;
}

-- The names of two channels are equal.
unfoldable pub same_channel : Channel → Channel → Bool
same_channel sms sms = true
same_channel email email = true
same_channel in_app in_app = true
same_channel (other_channel a) (other_channel b) = a =ˢ b
same_channel _ _ = false

-- One more for a business and a channel. The map of getItems is a list here, in the order in which
-- its keys were first met; the code hands it on in any order.
unfoldable pub count_item : Notification → List IncrItem → List IncrItem
unfolding same_channel
count_item n [] = record { biz_id = n.biz_id; channel = n.channel; val = pos 1 } ∷ []
count_item n (item ∷ items) =
    let rest = count_item n items in
    if eqb_ℤ item.biz_id n.biz_id && same_channel item.channel n.channel
    then record item { val = wrap32 (item.val +ℤ pos 1) } ∷ items
    else item ∷ rest

unfoldable pub count_items : List Notification → List IncrItem → List IncrItem
unfolding count_item
count_items [] items = items
count_items (n ∷ ns) items = count_items ns (count_item n items)

abbrev pub get_items : List Notification → List IncrItem
get_items ns = count_items ns []

abbrev pub default_quota_number : ℤ
default_quota_number = pos 1

module _ {ℓ} {S : Type ℓ} (json : Json) (store : Store S) where
  -- the part of Create and CreateWithCallbackLog after the call of the table: on an error the quota
  -- is given back, and an error of that is logged only
  unfoldable pub created_or_refunded :
      Notification → Result Entity → S → (Notification × Option Err) × S
  created_or_refunded n (ok e) s = ((to_domain json e, none), s)
  created_or_refunded n (err e) s =
      let (_, s') = store.incr n.biz_id n.channel default_quota_number s in
      ((empty_notification, some e), s')

  unfoldable pub create_by :
      (Entity → Effect S Entity) → Notification → S → (Notification × Option Err) × S
  unfolding created_or_refunded
  create_by insert n s =
      let (taken, s') = store.decr n.biz_id n.channel default_quota_number s in
      elim taken [
        | err e ↦ ((empty_notification, some e), s')
        | ok _ ↦ let (row, s'') = insert (to_entity json n) s' in created_or_refunded n row s''
      ]

  unfoldable pub create : Notification → S → (Notification × Option Err) × S
  unfolding create_by
  create n s = create_by store.create n s

  unfoldable pub create_with_callback_log : Notification → S → (Notification × Option Err) × S
  unfolding create_by
  create_with_callback_log n s = create_by store.create_with_callback_log n s

  unfoldable pub muti_decr : List Notification → Effect S (Unit {0})
  muti_decr ns s = store.muti_decr (get_items ns) s

  -- the name says increase; the body decreases
  unfoldable pub muti_incr : List Notification → Effect S (Unit {0})
  muti_incr ns s = store.muti_decr (get_items ns) s

  -- After BatchCreateWithCallbackLog of the table, an error is returned. After BatchCreate, it is
  -- returned only if giving the quota back fails too; otherwise the rows beside it are converted.
  unfoldable pub batch_created_with_log :
      List Notification → List Entity → Option Err → Effect S (List Notification)
  unfolding muti_incr
  batch_created_with_log ns rows none s = (ok (map (to_domain json) rows), s)
  batch_created_with_log ns rows (some e) s = let (_, s') = muti_incr ns s in (err e, s')

  unfoldable pub batch_created :
      List Notification → List Entity → Option Err → Effect S (List Notification)
  unfolding muti_incr
  batch_created ns rows none s = (ok (map (to_domain json) rows), s)
  batch_created ns rows (some e) s =
      let (given, s') = muti_incr ns s in
      (elim given [ err _ ↦ err e | ok _ ↦ ok (map (to_domain json) rows) ], s')

  unfoldable pub batch_create : List Notification → Bool → Effect S (List Notification)
  unfolding muti_decr batch_created_with_log batch_created
  batch_create ns create_callback_log s =
      if is_empty ns
      then (ok [], s)
      else let (taken, s1) = muti_decr ns s in
        elim taken [
          | err e ↦ (err e, s1)
          | ok _ ↦
              if create_callback_log
              then (let ((rows, e), s2) =
                    store.batch_create_with_callback_log (map (to_entity json) ns) s1 in
                  batch_created_with_log ns rows e s2)
              else (let ((rows, e), s2) = store.batch_create (map (to_entity json) ns) s1 in
                  batch_created ns rows e s2)
        ]

  unfoldable pub get_by_key : ℤ → String → S → (Notification × Option Err) × S
  get_by_key biz_id key s =
      let ((row, e), s') = store.get_by_key biz_id key s in ((to_domain json row, e), s')

  unfoldable pub get_by_keys : ℤ → List String → Effect S (List Notification)
  get_by_keys biz_id keys s =
      let (rows, s') = store.get_by_keys biz_id keys s in
      (elim rows [ err e ↦ err e | ok l ↦ ok (map (to_domain json) l) ], s')

  unfoldable pub cas_status : Notification → Effect S (Unit {0})
  cas_status n = store.cas_status (to_entity json n)

  -- BatchUpdateStatusSucceededOrFailed: the error of giving back is logged only
  unfoldable pub batch_update_status : List Notification → List Notification → Effect S (Unit {0})
  batch_update_status succeeded failed s =
      let (updated, s1) =
        store.batch_update (map (to_entity json) succeeded) (map (to_entity json) failed) s in
      elim updated [
        | err e ↦ (err e, s1)
        | ok _ ↦ let (_, s2) = store.muti_incr (get_items failed) s1 in (ok tt, s2)
      ]

  unfoldable pub mark_success : Notification → Effect S (Unit {0})
  mark_success n = store.mark_success (to_entity json n)

  unfoldable pub mark_failed : Notification → Effect S (Unit {0})
  mark_failed n s =
      let (marked, s1) = store.mark_failed (to_entity json n) s in
      elim marked [
        | err e ↦ (err e, s1)
        | ok _ ↦ store.incr n.biz_id n.channel default_quota_number s1
      ]
