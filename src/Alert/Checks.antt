-- ===== src/Alert/Checks.antt =====
-- The checks of workers/alert.worker.ts, one function for each, and the order in which a tick runs them.
-- What a check reads from the rest of the program and from the hosts is a field of `Inputs`. Percentages,
-- thresholds, rates and minutes are in thousandths; sizes of a disk in one common unit.
pub mod Gates
use vpn_relay.Prelude.{
  ℕ, ◌+◌, ◌*◌, Text, text, ltb, leb, ◌==◌, max, if◌then◌else◌, Bool, true, false, not, ◌&&◌, ◌||◌,
  Option, none, some, List, [], ◌∷◌, ◌++◌,
}
use vpn_relay.Prelude.Dict.{Dict, get}
use vpn_relay.Maintenance.Job.{ServerId, a, b, Jobs}
use vpn_relay.Maintenance.Service.{should_suppress_alerts, is_planned_boot}
use vpn_relay.Backup.Schedule.{stale_after_hours}
use vpn_relay.Alert.{
  Alerts, Effect, suspend_abnormal, is_enabled, get_threshold, get_threshold2, should_fire,
  fire_alert, eval_sustained, fire_or_clear,
}

abbrev pub gb : ℕ
gb = 1073741824

pub record Metrics : Type 0 where
  pub disk_used : Option ℕ
  pub disk_total : Option ℕ
  pub rx_mbps : ℕ
  pub tx_mbps : ℕ
  pub cpu_percent : ℕ
  pub reboot_required : Bool

-- A client with a monthly quota: its id, the quota in thousandths of a gigabyte, the bytes used.
pub record MonthlyUse : Type 0 where
  pub id : Text
  pub quota : ℕ
  pub used : ℕ

pub record Inputs : Type 0 where
  pub standalone : Bool
  pub hy2_enabled : Bool
  pub jobs : Jobs
  -- `getPing()`: the loss in percent
  pub ping_loss : Option ℕ
  pub xray_running : Bool
  pub singbox_running : Bool
  -- `none` when Server A is not reached over SSH
  pub wg_running : Option Bool
  -- `metricsCache`; `none` when the fetch is rejected
  pub metrics : ServerId → Option Metrics
  -- the active clients, with their bytes of the last hour
  pub hourly : List (Text × ℕ)
  pub monthly : List MonthlyUse
  -- the domains with a certificate that could be read, and when it expires, in milliseconds
  pub certificates : List (Text × ℕ)
  pub uptime_a_ms : Option ℕ
  pub uptime_b_ms : ℕ
  pub backup_enabled : Bool
  pub backup_interval_days : ℕ
  -- finished_at of the last backup, in seconds, and the start of this process, in milliseconds
  pub last_backup : Option ℕ
  pub process_start_ms : ℕ

abbrev Check : Type 0
Check = ℕ → Inputs → Alerts → Alerts

-- `(part / whole) * 100 >= threshold`, where a division by 0 is NaN or Infinity
abbrev pub percent_reaches : ℕ → ℕ → ℕ → Bool
percent_reaches part whole threshold =
    if whole == 0 then ltb 0 part else leb (threshold * whole) (part * 100000)

abbrev pub percent_below : ℕ → ℕ → ℕ → Bool
percent_below part whole threshold =
    if whole == 0 then false else ltb (part * 100000) (threshold * whole)

-- `fetchBothServersAndBuildChecks`: the servers that are looked at
abbrev pub servers : Bool → List ServerId
servers true = b ∷ []
servers false = a ∷ b ∷ []

abbrev pub server_text : ServerId → Text
server_text a = text "a"
server_text b = text "b"

-- A condition that must last: `evalSustained`, then fire, or clear once it is false.
unfoldable pub sustain_then : ℕ → Text → Bool → ℕ → Alerts → Alerts
unfolding eval_sustained fire_or_clear
sustain_then now key condition duration_ms w =
    let (starts, sustained) = eval_sustained now key condition duration_ms w.sustain_start in
    fire_or_clear now key sustained (not condition) (record w { sustain_start = starts })

abbrev loss_reaches : ℕ → Option ℕ → Bool
loss_reaches threshold none = false
loss_reaches threshold (some loss) = leb threshold (loss * 1000)

abbrev loss_partial : Option ℕ → Bool
loss_partial none = false
loss_partial (some loss) = ltb loss 100

unfoldable pub check_cascade_down : Check
unfolding sustain_then
check_cascade_down now i w =
    if i.standalone || not (is_enabled (text "cascade_down") w)
    then w
    else if should_suppress_alerts now a i.jobs
    then w
    else sustain_then now (text "cascade_down")
        (loss_reaches (get_threshold (text "cascade_down") 100000 w) i.ping_loss)
        (get_threshold2 (text "cascade_down") 2000 w * 60) w

unfoldable pub check_cascade_degradation : Check
unfolding sustain_then
check_cascade_degradation now i w =
    if i.standalone || not (is_enabled (text "cascade_degradation") w)
    then w
    else if should_suppress_alerts now a i.jobs
    then w
    else sustain_then now (text "cascade_degradation")
        (loss_reaches (get_threshold (text "cascade_degradation") 30000 w) i.ping_loss
          && loss_partial i.ping_loss)
        (get_threshold2 (text "cascade_degradation") 5000 w * 60) w

unfoldable pub check_service_dead_xray : Check
check_service_dead_xray now i w =
    if not (is_enabled (text "service_dead_xray") w) || should_suppress_alerts now b i.jobs
    then w
    else fire_or_clear now (text "service_dead_xray") (not i.xray_running) i.xray_running w

unfoldable pub check_service_dead_singbox : Check
check_service_dead_singbox now i w =
    if not i.hy2_enabled || not (is_enabled (text "service_dead_singbox") w)
    then w
    else if should_suppress_alerts now b i.jobs
    then w
    else fire_or_clear now (text "service_dead_singbox") (not i.singbox_running) i.singbox_running w

abbrev wg_check : ℕ → Option Bool → Alerts → Alerts
wg_check now none w = w
wg_check now (some is_running) w =
    fire_or_clear now (text "service_dead_wg") (not is_running) is_running w

unfoldable pub check_service_dead_wg : Check
check_service_dead_wg now i w =
    if i.standalone || not (is_enabled (text "service_dead_wg") w)
    then w
    else if should_suppress_alerts now a i.jobs
    then w
    else wg_check now i.wg_running w

-- A `for` loop over the servers or the clients.
abbrev pub for_each {ℓ} : {A : Type ℓ} → (A → Alerts → Alerts) → List A → Alerts → Alerts
for_each f [] w = w
for_each f (x ∷ xs) w = for_each f xs (f x w)

-- `!data?.usedGb || !data?.totalGb || data.totalGb === 0` passes over a missing reading and over 0.
abbrev disk_sizes : Option ℕ → Option ℕ → Option (ℕ × ℕ)
disk_sizes none total = none
disk_sizes (some used) none = none
disk_sizes (some used) (some total) = if used == 0 || total == 0 then none else some (used, total)

abbrev disk_of : Option Metrics → Option (ℕ × ℕ)
disk_of none = none
disk_of (some m) = disk_sizes m.disk_used m.disk_total

abbrev disk_step : ℕ → ℕ → Text → Option (ℕ × ℕ) → Alerts → Alerts
disk_step now threshold key none w = w
disk_step now threshold key (some (used, total)) w =
    fire_or_clear now key (percent_reaches used total threshold)
      (percent_below used total threshold) w

unfoldable pub check_disk_full : Check
check_disk_full now i w =
    if not (is_enabled (text "disk_full") w)
    then w
    else (let threshold = get_threshold (text "disk_full") 90000 w in
        for_each
          (λ server.
            disk_step now threshold (text "disk_full:" ++ server_text server)
              (disk_of (i.metrics server)))
          (servers i.standalone) w)

abbrev network_step : ℕ → ℕ → ℕ → ℕ → Text → Option Metrics → Alerts → Alerts
network_step now threshold duration_ms channel key none w = w
network_step now threshold duration_ms channel key (some m) w =
    sustain_then now key (percent_reaches (max m.rx_mbps m.tx_mbps) channel threshold) duration_ms w

unfoldable pub check_network_saturation : Check
unfolding sustain_then
check_network_saturation now i w =
    if not (is_enabled (text "network_saturation") w)
    then w
    else (let threshold = get_threshold (text "network_saturation") 80000 w in
        let duration_ms = get_threshold2 (text "network_saturation") 15000 w * 60 in
        let channel = get_threshold (text "channel_capacity") 100000 w in
        for_each
          (λ server.
            network_step now threshold duration_ms channel
              (text "network_saturation:" ++ server_text server) (i.metrics server))
          (servers i.standalone) w)

abbrev cpu_step : ℕ → Inputs → ℕ → ℕ → ServerId → Option Metrics → Alerts → Alerts
cpu_step now i threshold duration_ms server none w = w
cpu_step now i threshold duration_ms server (some m) w =
    if should_suppress_alerts now server i.jobs
    then w
    else sustain_then now (text "cpu_overload:" ++ server_text server) (leb threshold m.cpu_percent)
        duration_ms w

unfoldable pub check_cpu_overload : Check
unfolding sustain_then
check_cpu_overload now i w =
    if not (is_enabled (text "cpu_overload") w)
    then w
    else (let threshold = get_threshold (text "cpu_overload") 95000 w in
        let duration_ms = get_threshold2 (text "cpu_overload") 10000 w * 60 in
        for_each (λ server. cpu_step now i threshold duration_ms server (i.metrics server))
          (servers i.standalone) w)

abbrev pub abnormal_key : Text → Text
abnormal_key id = text "abnormal_traffic:" ++ id

-- `suspendClient` comes before the message, and a failure of it does not stop the alert.
unfoldable pub abnormal_step : ℕ → ℕ → Text × ℕ → Alerts → Alerts
abnormal_step now threshold (id, used) w =
    if leb (threshold * gb) (used * 1000) && should_fire now (abnormal_key id) w
    then fire_alert now (abnormal_key id)
        (record w { effects = w.effects ++ suspend_abnormal id ∷ [] })
    else w

unfoldable pub check_abnormal_traffic : Check
unfolding abnormal_step
check_abnormal_traffic now i w =
    if not (is_enabled (text "abnormal_traffic") w)
    then w
    else for_each (abnormal_step now (get_threshold (text "abnormal_traffic") 50000 w)) i.hourly w

-- usagePercent = monthlyUsedBytes / (quota * GB) * 100, on thousandths of a gigabyte
abbrev quota_step : ℕ → ℕ → MonthlyUse → Alerts → Alerts
quota_step now threshold m w =
    fire_or_clear now (text "quota_warning:" ++ m.id)
      (percent_reaches (m.used * 1000) (m.quota * gb) threshold)
      (percent_below (m.used * 1000) (m.quota * gb) threshold) w

unfoldable pub check_quota_warning : Check
check_quota_warning now i w =
    if not (is_enabled (text "quota_warning") w)
    then w
    else for_each (quota_step now (get_threshold (text "quota_warning") 90000 w)) i.monthly w

-- daysLeft <= thresholdDays
abbrev pub expires_within : ℕ → ℕ → ℕ → Bool
expires_within now threshold_days expiry =
    leb (expiry * 1000) (now * 1000 + threshold_days * 86400000)

abbrev cert_step : ℕ → ℕ → Text × ℕ → Alerts → Alerts
cert_step now threshold_days (domain, expiry) w =
    fire_or_clear now (text "cert_expiry:" ++ domain) (expires_within now threshold_days expiry)
      (not (expires_within now threshold_days expiry)) w

unfoldable pub check_cert_expiry : Check
check_cert_expiry now i w =
    if not (is_enabled (text "cert_expiry") w)
    then w
    else for_each (cert_step now (get_threshold (text "cert_expiry") 7000 w)) i.certificates w

abbrev reboot_step : ℕ → Bool → Text → Option ℕ → Alerts → Alerts
reboot_step now planned key none w = w
reboot_step now planned key (some uptime_ms) w =
    if planned then w else fire_or_clear now key (ltb uptime_ms 600000) (leb 600000 uptime_ms) w

unfoldable pub check_reboot_detected : Check
check_reboot_detected now i w =
    if not (is_enabled (text "reboot_detected") w)
    then w
    else (let w' =
          reboot_step now (is_planned_boot now b i.jobs) (text "reboot_detected:b")
            (some i.uptime_b_ms) w in
        if i.standalone
        then w'
        else reboot_step now (is_planned_boot now a i.jobs) (text "reboot_detected:a") i.uptime_a_ms
            w')

abbrev required_step : ℕ → Text → Option Metrics → Alerts → Alerts
required_step now key none w = w
required_step now key (some m) w = fire_or_clear now key m.reboot_required (not m.reboot_required) w

unfoldable pub check_reboot_required : Check
check_reboot_required now i w =
    if not (is_enabled (text "reboot_required") w)
    then w
    else for_each
        (λ server.
          required_step now (text "reboot_required:" ++ server_text server) (i.metrics server))
        (servers i.standalone) w

abbrev backup_baseline : ℕ → Option ℕ → ℕ
backup_baseline process_start_ms none = process_start_ms
backup_baseline process_start_ms (some finished_at) = finished_at * 1000

-- ageMs > thresholdHours * 3_600_000
unfoldable pub is_stale : ℕ → Inputs → ℕ → Bool
is_stale now i grace_hours =
    ltb
      (backup_baseline i.process_start_ms i.last_backup
        + stale_after_hours i.backup_interval_days grace_hours * 3600)
      now

unfoldable pub check_backup_stale : Check
unfolding is_stale
check_backup_stale now i w =
    if not i.backup_enabled || not (is_enabled (text "backup_stale") w)
    then w
    else (let stale = is_stale now i (get_threshold (text "backup_stale") 12000 w) in
        fire_or_clear now (text "backup_stale") stale (not stale) w)

-- One tick of `alertWorker`: the checks in their order.
unfoldable pub run_checks : Check
run_checks now i w =
    for_each (λ (check : Check). check now i)
      (check_cascade_down ∷ check_cascade_degradation ∷ check_service_dead_xray
        ∷ check_service_dead_singbox ∷ check_service_dead_wg ∷ check_disk_full
        ∷ check_network_saturation ∷ check_cpu_overload ∷ check_abnormal_traffic
        ∷ check_quota_warning ∷ check_cert_expiry ∷ check_reboot_detected ∷ check_reboot_required
        ∷ check_backup_stale ∷ [])
      w
