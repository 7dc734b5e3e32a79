-- ===== src/Quota/Reset.antt =====
-- internal/service/quota, internal/repository/quota.go and internal/repository/dao/quota.go: the quotas
-- in the database, and their reset at the beginning of a month.
use go_notification.Prelude.{
  ℕ, zero, suc, List, [], ◌∷◌, map, length, Option, none, some, ℤ, pos, ◌+ℤ◌, ltb_ℤ, wrap32, wrap64,
  if◌then◌else◌,
}
use go_notification.Errs.{Sentinel, Result, ok, err}
use go_notification.Effect.{Effect, bind_result}
use go_notification.Domain.Notification.{Channel, sms, email}
use go_notification.Domain.Tx.{BusinessConfig, QuotaConfig}
use go_notification.Quota.Counters.{Quota}

-- dao.Quota
pub record QuotaRow : Type 0 where
  pub id : ℤ
  pub biz_id : ℤ
  pub channel : Channel
  pub quota : ℤ
  pub utime : ℤ
  pub ctime : ℤ

-- The table of quotas; `first` answers `none` for gorm.ErrRecordNotFound.
pub record QuotaTable {ℓ} (S : Type ℓ) : Type ℓ where
  pub now_milli : S → ℤ × S
  pub upsert : List QuotaRow → Effect S (Unit {0})
  pub first : ℤ → Channel → Effect S (Option QuotaRow)

abbrev pub no_quota_row : QuotaRow
no_quota_row = record {
  id = pos 0;
  biz_id = pos 0;
  channel = Channel.other_channel "";
  quota = pos 0;
  utime = pos 0;
  ctime = pos 0;
}

-- the answer of the DAO: an error other than that of a missing row is dropped, and the row is zero
abbrev pub row_or_zero : Result (Option QuotaRow) → Result QuotaRow
row_or_zero (ok none) = err (Sentinel.quota_not_found ∷ [])
row_or_zero (ok (some row)) = ok row
row_or_zero (err _) = ok no_quota_row

abbrev pub to_row : Quota → QuotaRow
to_row q = record no_quota_row { biz_id = q.biz_id; quota = q.quota; channel = q.channel }

abbrev pub to_quota : QuotaRow → Quota
to_quota row = record { biz_id = row.biz_id; quota = row.quota; channel = row.channel }

abbrev pub stamp_quota : ℤ → QuotaRow → QuotaRow
stamp_quota now row = record row { ctime = now; utime = now }

module _ {ℓ} {S : Type ℓ} (t : QuotaTable S) where
  unfoldable pub create_or_update_rows : List QuotaRow → Effect S (Unit {0})
  create_or_update_rows rows s =
      let (now, s') = t.now_milli s in t.upsert (map (stamp_quota now) rows) s'

  unfoldable pub find_row : ℤ → Channel → Effect S QuotaRow
  find_row biz_id channel s = let (found, s') = t.first biz_id channel s in (row_or_zero found, s')

  unfoldable pub create_or_update_quotas : List Quota → Effect S (Unit {0})
  unfolding create_or_update_rows
  create_or_update_quotas quotas = create_or_update_rows (map to_row quotas)

  unfoldable pub find_stored_quota : ℤ → Channel → Effect S Quota
  unfolding find_row
  find_stored_quota biz_id channel s =
      bind_result (find_row biz_id channel s) λ row s'. (ok (to_quota row), s')

-- the quotas of a month, an int as an int32
unfoldable pub monthly_quotas : ℤ → QuotaConfig → List Quota
monthly_quotas biz_id config =
    record { biz_id = biz_id; quota = wrap32 config.monthly.sms; channel = sms }
    ∷ record { biz_id = biz_id; quota = wrap32 config.monthly.email; channel = email }
    ∷ []

-- what the reset calls: the pages of the configurations, and the repository of quotas
pub record ResetServices {ℓ} (S : Type ℓ) : Type ℓ where
  pub find_page : ℤ → ℤ → Effect S (List BusinessConfig)
  pub save_quotas : List Quota → Effect S (Unit {0})

abbrev pub batch_size : ℤ
batch_size = pos 10

module _ {ℓ} {S : Type ℓ} (services : ResetServices S) where
  unfoldable pub reset_quota : BusinessConfig → Effect S (Unit {0})
  unfolding monthly_quotas
  reset_quota biz s = elim biz.quota [
    | none ↦ (err (Sentinel.no_quota ∷ []), s)
    | some config ↦ services.save_quotas (monthly_quotas biz.id config) s
  ]

  -- an error is passed over
  unfoldable pub reset_each : List BusinessConfig → S → S
  unfolding reset_quota
  reset_each [] s = s
  reset_each (biz ∷ bizs) s = reset_each bizs (reset_quota biz s).1

  -- the limit of the page is 0
  unfoldable pub one_loop : ℤ → Effect S ℤ
  unfolding reset_each
  one_loop offset s =
      bind_result (services.find_page offset (pos 0) s)
        λ bizs s'. (ok (pos (length bizs)), reset_each bizs s')

  -- the loop of Start from an offset, on fuel; `none` means that the fuel ran out
  unfoldable pub start_from : ℕ → ℤ → S → Option S
  unfolding one_loop
  start_from zero offset s = none
  start_from (suc fuel) offset s =
      let (cnt, s') = one_loop offset s in
      elim cnt [
        | err _ ↦ start_from fuel (wrap64 (offset +ℤ batch_size)) s'
        | ok n ↦
            let rest = start_from fuel (wrap64 (offset +ℤ n)) s' in
            if ltb_ℤ n batch_size then some s' else rest
      ]

  unfoldable pub start : ℕ → S → Option S
  unfolding start_from
  start fuel s = start_from fuel (pos 0) s
