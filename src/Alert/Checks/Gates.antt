-- ===== src/Alert/Checks/Gates.antt =====
-- The switches of the checks of workers/alert.worker.ts.
use vpn_relay.Prelude.{ℕ, Text, text, Bool, true, false, ◌||◌, List, [], ◌∷◌, ◌≡◌, arith, All}
use vpn_relay.Alert.{Alerts, is_enabled}
use vpn_relay.Alert.Checks.{
  Inputs, run_checks, check_cascade_down, check_cascade_degradation, check_service_dead_xray,
  check_service_dead_singbox, check_service_dead_wg, check_disk_full, check_network_saturation,
  check_cpu_overload, check_abnormal_traffic, check_quota_warning, check_cert_expiry,
  check_reboot_detected, check_reboot_required, check_backup_stale,
}

or_true : (b : Bool) → (b || true) ≡ true
or_true b = ground arith

-- The keys of the alerts that the worker's tick checks.
abbrev pub alert_keys : List Text
alert_keys =
    text "cascade_down"
    ∷ text "cascade_degradation"
    ∷ text "service_dead_xray"
    ∷ text "service_dead_singbox"
    ∷ text "service_dead_wg"
    ∷ text "disk_full"
    ∷ text "network_saturation"
    ∷ text "cpu_overload"
    ∷ text "abnormal_traffic"
    ∷ text "quota_warning"
    ∷ text "cert_expiry"
    ∷ text "reboot_detected"
    ∷ text "reboot_required"
    ∷ text "backup_stale"
    ∷ []

-- With each alert switched off a tick changes nothing and sends nothing, whatever it observes.
pub run_checks-disabled :
    (now : ℕ) (i : Inputs) (w : Alerts)
    → All (λ key. is_enabled key w ≡ false) alert_keys
    → run_checks now i w ≡ w
unfolding run_checks check_cascade_down check_cascade_degradation check_service_dead_xray
    check_service_dead_singbox check_service_dead_wg check_disk_full check_network_saturation
    check_cpu_overload check_abnormal_traffic check_quota_warning check_cert_expiry
    check_reboot_detected check_reboot_required check_backup_stale
run_checks-disabled now i w
      (o0, (o1, (o2, (o3, (o4, (o5, (o6, (o7, (o8, (o9, (o10, (o11, (o12, (o13, _)))))))))))))) =
    simp (o0, o1, o2, o3, o4, o5, o6, o7, o8, o9, o10, o11, o12, o13, or_true)
