-- ===== src/Domain/Windows.antt =====
-- What validation guarantees of a notification, and of the window in which it may be sent.
use text.Mathlib.Text.{◌==◌ as ◌=ˢ◌}
use go_notification.Prelude.{
  ◌≡◌, ◌≢◌, ◌↔◌, refl, ◌⊎◌, inl, true, false, not, [], pos, ◌≤ℤ◌, ◌<ℤ◌, leb_ℤ, arith, Instant,
  is_zero,
}
use go_notification.Errs.{ok, err}
use go_notification.Domain.Strategy
use go_notification.Domain.Guards.{
  guard_iff, Judged, guard-Judged, positive_iff, filled_iff, named_iff, true_iff, done_iff,
}
use go_notification.Domain.Strategy.{
  SendStrategyType, SendStrategyConfig, invalid, immediate, delayed, scheduled, window, deadline,
  other_strategy, validate_as, second,
}
use go_notification.Domain.Notification
use go_notification.Domain.Notification.{
  Notification, is_valid, is_empty, get_domain_send_strategy_config, StrategyMessage, unix,
}

strategy-refusal : (now : Instant) (e : SendStrategyConfig) → Judged (Strategy.validate now e)
unfolding Strategy.validate validate_as
strategy-refusal now e = go e.type_of
  where
    go : (t : SendStrategyType) → Judged (validate_as t now e)
    go immediate = inl refl
    go delayed = ground arith
    go scheduled = ground arith
    go window = ground arith
    go deadline = ground arith
    go (other_strategy _) = inl refl

-- When a strategy may be used at a time: a delay is positive, a set deadline or scheduled time has not
-- passed, and a window starts at a set time and does not end before it.
abbrev pub Usable : SendStrategyType → Instant → SendStrategyConfig → Type 0
Usable immediate now e = Unit
Usable delayed now e = pos 0 <ℤ e.delay
Usable deadline now e = (is_zero e.deadline_time ≡ false) × (now ≤ℤ e.deadline_time)
Usable window now e = (is_zero e.start_time ≡ false) × (e.start_time ≤ℤ e.end_time)
Usable scheduled now e = (is_zero e.schedule_time ≡ false) × (now ≤ℤ e.schedule_time)
Usable (other_strategy _) now e = Unit

usable_iff :
    (t : SendStrategyType) (now : Instant) (e : SendStrategyConfig)
    → (validate_as t now e ≡ ok tt) ↔ Usable t now e
unfolding validate_as
usable_iff immediate now e = done_iff
usable_iff delayed now e = (λ h. ground arith, λ h. ground arith)
usable_iff deadline now e = (λ h. ground arith, λ h. ground arith)
usable_iff window now e = (λ h. ground arith, λ h. ground arith)
usable_iff scheduled now e = (λ h. ground arith, λ h. ground arith)
usable_iff (other_strategy _) now e = done_iff

-- The conditions of `Notification.Validate`.
pub record WellFormed (now : Instant) (n : Notification) : Type 0 where
  pub business : pos 0 <ℤ n.biz_id
  pub keyed : n.key ≢ ""
  pub addressed : n.receivers ≢ []
  pub valid_channel : is_valid n.channel ≡ true
  pub template_id : pos 0 <ℤ n.template.id
  pub template_version : pos 0 <ℤ n.template.version_id
  pub parametrised : n.template.params ≢ []
  pub strategy : Usable n.send_strategy_config.type_of now n.send_strategy_config

conditions :
    (now : Instant) (n : Notification)
    → (Notification.validate now n ≡ ok tt) ↔ (
        (pos 0 <ℤ n.biz_id)
        × ((n.key ≢ "")
            × ((n.receivers ≢ [])
                × ((is_valid n.channel ≡ true)
                    × ((pos 0 <ℤ n.template.id)
                        × ((pos 0 <ℤ n.template.version_id)
                            × ((n.template.params ≢ [])
                                × Usable n.send_strategy_config.type_of now
                                    n.send_strategy_config)))))))
unfolding Notification.validate Strategy.validate
conditions now n = guard_iff _ _ (positive_iff n.biz_id) (
    guard_iff _ _ (named_iff n.key) (
      guard_iff _ _ (filled_iff n.receivers) (
        guard_iff _ _ (true_iff (is_valid n.channel)) (
          guard_iff _ _ (positive_iff n.template.id) (
            guard_iff _ _ (positive_iff n.template.version_id) (
              guard_iff _ _ (filled_iff n.template.params)
                (usable_iff n.send_strategy_config.type_of now n.send_strategy_config)))))))

-- A notification is accepted exactly if its business, template and template version have positive
-- numbers, it has a key, receivers, parameters and a channel of the platform, and its strategy can be
-- used at the time: a delay is positive, a set deadline or scheduled time has not passed, a window
-- starts at a set time and does not end before it. Every refusal is the error of an invalid parameter.
pub validate_iff :
    (now : Instant) (n : Notification)
    → ((Notification.validate now n ≡ ok tt) ↔ WellFormed now n)
      × ((Notification.validate now n ≡ ok tt) ⊎ (Notification.validate now n ≡ err invalid))
unfolding Notification.validate
validate_iff now n = (
  (
    λ h.
        (let (b, (k, (r, (c, (t, (v, (p, s))))))) = (conditions now n).0 h in
          record {
            business = b;
            keyed = k;
            addressed = r;
            valid_channel = c;
            template_id = t;
            template_version = v;
            parametrised = p;
            strategy = s;
          }),
    λ w.
        ((conditions now n).1 (
          w.business,
          (
            w.keyed,
            (
              w.addressed,
              (
                w.valid_channel,
                (w.template_id, (w.template_version, (w.parametrised, w.strategy))),
              ),
            ),
          ),
        )),
  ),
  guard-Judged (leb_ℤ n.biz_id (pos 0)) _ (
      guard-Judged (n.key =ˢ "") _ (
        guard-Judged (is_empty n.receivers) _ (
          guard-Judged (not (is_valid n.channel)) _ (
            guard-Judged (leb_ℤ n.template.id (pos 0)) _ (
              guard-Judged (leb_ℤ n.template.version_id (pos 0)) _ (
                guard-Judged (is_empty n.template.params) _
                  (strategy-refusal now n.send_strategy_config))))))),
)
