-- ===== src/Signal/Tests.antt =====
-- A signal just below the limit of the prompt.
use ha_telink_manager.Prelude.{neg, some, ◌≡◌, ◌≢◌, ◌↔◌}
use ha_telink_manager.Signal.{CovClass, mid, cov_cls, Tier, rssi_info}
use ha_telink_manager.Signal.Tiers.{minus_80, cov_cls-rssi_info}

cov_cls-rssi_info_example :
    (neg 85 ≢ minus_80
      → (cov_cls (some (neg 85)) ≡ CovClass.bad) ↔ ((rssi_info (some (neg 85))).tier ≢ Tier.ok))
    × (cov_cls (some minus_80) ≡ mid)
    × ((rssi_info (some minus_80)).tier ≡ Tier.weak)
cov_cls-rssi_info_example = cov_cls-rssi_info (neg 85)
