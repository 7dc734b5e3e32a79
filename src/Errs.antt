-- ===== src/Errs.antt =====
-- internal/errs/error.go: the sentinel errors, and the chains that `fmt.Errorf("%w: %w", …)` makes
-- of them. An error is the list of the sentinels that `errors.Is` finds in it, outermost first; its
-- text is left out. `other n` stands for an error that the package does not name.
use go_notification.Prelude.{
  ℕ, ◌≡◌, ◌≢◌, refl, subst, ◌⊎◌, inl, inr, if◌then◌else◌, arith, ◌+◌, Bool, false, ◌||◌, List, [],
  ◌∷◌, ◌==◌,
}

pub data Sentinel : Type 0 where
  invalid_parameter : Sentinel
  send_notification_failed : Sentinel
  notification_not_found : Sentinel
  create_notification_failed : Sentinel
  biz_id_not_found : Sentinel
  template_not_found : Sentinel
  template_version_not_found : Sentinel
  template_version_not_approved_by_platform : Sentinel
  template_version_not_approved_by_provider : Sentinel
  template_and_version_mis_match : Sentinel
  channel_disabled : Sentinel
  rate_limited : Sentinel
  circuit_breaker : Sentinel
  no_available_provider : Sentinel
  no_available_channel : Sentinel
  config_not_found : Sentinel
  no_quota_config : Sentinel
  no_quota : Sentinel
  quota_not_found : Sentinel
  provider_not_found : Sentinel
  unknown_channel : Sentinel
  invalid_operation : Sentinel
  create_template_failed : Sentinel
  update_template_failed : Sentinel
  fork_version_failed : Sentinel
  update_template_version_failed : Sentinel
  update_template_version_audit_status_failed : Sentinel
  update_template_provider_audit_status_failed : Sentinel
  submit_version_for_internal_review_failed : Sentinel
  submit_version_for_provider_review_failed : Sentinel
  no_available_failover_service : Sentinel
  notification_duplicate : Sentinel
  notification_version_mismatch : Sentinel
  create_callback_log_failed : Sentinel
  database_error : Sentinel
  external_service_error : Sentinel
  batch_size_over_limit : Sentinel
  to_async : Sentinel
  exceed_limit : Sentinel
  error_condition_is_met : Sentinel
  other : ℕ → Sentinel

-- The sentinels are distinct values: each has a number of its own.
abbrev pub code : Sentinel → ℕ
code invalid_parameter = 0
code send_notification_failed = 1
code notification_not_found = 2
code create_notification_failed = 3
code biz_id_not_found = 4
code template_not_found = 5
code template_version_not_found = 6
code template_version_not_approved_by_platform = 7
code template_version_not_approved_by_provider = 8
code template_and_version_mis_match = 9
code channel_disabled = 10
code rate_limited = 11
code circuit_breaker = 12
code no_available_provider = 13
code no_available_channel = 14
code config_not_found = 15
code no_quota_config = 16
code no_quota = 17
code quota_not_found = 18
code provider_not_found = 19
code unknown_channel = 20
code invalid_operation = 21
code create_template_failed = 22
code update_template_failed = 23
code fork_version_failed = 24
code update_template_version_failed = 25
code update_template_version_audit_status_failed = 26
code update_template_provider_audit_status_failed = 27
code submit_version_for_internal_review_failed = 28
code submit_version_for_provider_review_failed = 29
code no_available_failover_service = 30
code notification_duplicate = 31
code notification_version_mismatch = 32
code create_callback_log_failed = 33
code database_error = 34
code external_service_error = 35
code batch_size_over_limit = 36
code to_async = 37
code exceed_limit = 38
code error_condition_is_met = 39
code (other n) = 40 + n

abbrev pub Err : Type 0
Err = List Sentinel

-- an error that the package does not name
abbrev pub failure : ℕ → Err
failure n = other n ∷ []

-- `errors.Is(err, target)`
abbrev pub is : Err → Sentinel → Bool
is [] target = false
is (s ∷ rest) target = code s == code target || is rest target

-- `(value, error)`, where the value is read only if the error is nil
pub data Result {ℓ} (A : Type ℓ) : Type ℓ where
  err : Err → Result A
  ok : A → Result A

-- an early `return` of an error: the rest runs only if the test fails
abbrev pub guard : Bool → Err → Result (Unit {0})
guard test reason = if test then err reason else ok tt

infixl 5 ◌>>=◌
abbrev pub ◌>>=◌ {ℓ κ} : {V : Type ℓ} {W : Type κ} → Result V → (V → Result W) → Result W
err reason >>= next = err reason
ok v >>= next = next v

pub Result-cases {ℓ} :
    {V : Type ℓ} (r : Result V) → ((v : V) × (r ≡ ok v)) ⊎ ((e : Err) × (r ≡ err e))
Result-cases (err e) = inr (e, refl)
Result-cases (ok v) = inl (v, refl)

infixl 5 ◌>>◌
abbrev pub ◌>>◌ {ℓ} : {W : Type ℓ} → Result (Unit {0}) → Result W → Result W
first >> second = first >>= λ done. second

pub ok_injective {ℓ} : {V : Type ℓ} {v w : V} → ok v ≡ ok w → v ≡ w
ok_injective {V} {v} {w} h = ground arith

-- the result is an error
abbrev pub Refuses {κ} : {A : Type κ} → Result A → Type 0
Refuses (ok _) = ⊥
Refuses (err _) = Unit

pub not_ok : {r : Result (Unit {0})} → Refuses r → r ≢ ok tt
not_ok {r} refused h = subst Refuses h refused
