-- ===== src/Updates/Server.antt =====
-- `processServer` of workers/updates.worker.ts over the tables alert_settings and alert_state; the
-- column `context` of the second is the dictionary `contexts`. SHA-256 is a parameter.
pub mod Cached
use vpn_relay.Prelude.{
  ℕ, ◌+◌, ◌*◌, ◌≤◌, Text, text, text_eq, leb, ltb, if◌then◌else◌, Bool, true, false, not, ◌&&◌,
  Option, none, some, List, [], ◌∷◌, ◌++◌, map, take, any, keep,
}
use vpn_relay.Prelude.Dict.{Dict, get, put, remove}
use vpn_relay.Alert.{
  Alerts, AlertSetting, AlertState, get_cooldown, may_fire, upsert_fired, upsert_clear, has_fired,
}
use vpn_relay.Updates.{PackageInfo, Summary, sort_texts, join, split_message, max_message_len}
use vpn_relay.Updates.Changelog.{parse_changelog}
use vpn_relay.Updates.Message.{
  format_server_message, format_fallback_message, security_of, regular_of, max_regular_shown,
}

pub record CachedContext : Type 0 where
  pub hash : Text
  pub message : Text

pub record Notices : Type 0 where
  pub alerts : Alerts
  pub contexts : Dict CachedContext
  -- the messages that Telegram is asked to send
  pub sent : List Text

-- What the calls of one run give: `apt list` (`none` when it throws), the counts of apt-check (`none`
-- when that throws), the changelogs of the named packages, and the answer of the OpenAI service.
pub record Report : Type 0 where
  pub packages : Option (List PackageInfo)
  pub counts : Option (ℕ × ℕ)
  pub changelogs : List Text → Dict Text
  pub summaries : Dict Text → Option (Dict Summary)

abbrev pub updates_key : Text
updates_key = text "updates_pending"

-- `shouldFire`
unfoldable pub should_fire : ℕ → Text → Notices → Bool
unfolding get_cooldown get text_eq
should_fire now state_key n =
    may_fire now (get_cooldown updates_key 720 n.alerts) (get n.alerts.states state_key)

abbrev with_states : (Dict AlertState → Dict AlertState) → Notices → Notices
with_states f n =
    let alerts = n.alerts in record n { alerts = record alerts { states = f alerts.states } }

-- `queries.upsertAlertState(stateKey, "fired", JSON.stringify(context))`
unfoldable pub upsert_context : ℕ → Text → CachedContext → Notices → Notices
unfolding upsert_fired put remove text_eq
upsert_context now key context n =
    let marked = with_states (upsert_fired now key) n in
    record marked { contexts = put marked.contexts key context }

abbrev parts_or_none : Option (List Text) → List Text
parts_or_none none = []
parts_or_none (some ps) = ps

-- `sendMessages` of the parts; a part that cannot be sent is logged
abbrev pub send_messages : List Text → Notices → Notices
send_messages parts n = record n { sent = n.sent ++ parts }

abbrev pub message_parts : Text → List Text
message_parts message = parts_or_none (split_message max_message_len message)

abbrev package_version : PackageInfo → Text
package_version p = p.name ++ (text ":" ++ p.new_version)

abbrev fall_back : ℕ → Text → Text → Option Text → Notices → Notices
fall_back now key label none n = n
fall_back now key label (some message) n =
    if should_fire now key n
    then send_messages (message ∷ [])
        (upsert_context now key (record { hash = text "fallback"; message = message }) n)
    else n

abbrev fall_back_on : ℕ → Text → Text → Option (ℕ × ℕ) → Notices → Notices
fall_back_on now key label none n = n
fall_back_on now key label (some (security, total)) n =
    fall_back now key label (format_fallback_message label security total) n

abbrev no_updates : ℕ → Text → Notices → Notices
no_updates now key n =
    if has_fired (get n.alerts.states key) then with_states (upsert_clear now key) n else n

-- The list is as it was: only the cooldown counts.
abbrev pub remind : ℕ → Text → CachedContext → Notices → Notices
remind now key cached n =
    if should_fire now key n
    then send_messages (message_parts cached.message) (upsert_context now key cached n)
    else n

-- The list has changed: the message is kept, and sent if the cooldown is over.
abbrev pub announce : ℕ → Text → CachedContext → Notices → Notices
announce now key context n =
    if should_fire now key n
    then send_messages (message_parts context.message) (upsert_context now key context n)
    else upsert_context now key context n

abbrev pub parse_all : Dict Text → Dict Summary
parse_all [] = []
parse_all ((name, s) ∷ changelogs) = (name, parse_changelog s) ∷ parse_all changelogs

abbrev package_name : PackageInfo → Text
package_name p = p.name

abbrev changelog_targets : List PackageInfo → List Text
changelog_targets packages =
    map package_name (security_of packages)
    ++ map package_name (take max_regular_shown (regular_of packages))

abbrev asked : Report → Dict Text → Option (Dict Summary)
asked report [] = none
asked report (c ∷ changelogs) = report.summaries (c ∷ changelogs)

-- Steps 3 to 6: the message of a list.
unfoldable pub compose : Text → Report → List PackageInfo → Text
unfolding parse_changelog format_server_message
compose label report packages =
    let changelogs = report.changelogs (changelog_targets packages) in
    format_server_message label packages (parse_all changelogs) (asked report changelogs)

module _ (sha256_hex : Text → Text) where
  -- `computeHash`
  unfoldable pub compute_hash : List PackageInfo → Text
  compute_hash packages =
      take 16 (sha256_hex (join (text "|") (sort_texts (map package_version packages))))

  abbrev pub renew : ℕ → Text → Text → Report → List PackageInfo → Notices → Notices
  renew now key label report packages n =
      announce now key
        (record { hash = compute_hash packages; message = compose label report packages }) n

  abbrev pub compare_hash :
      ℕ → Text → Text → Report → List PackageInfo → Option CachedContext → Notices → Notices
  compare_hash now key label report packages none n = renew now key label report packages n
  compare_hash now key label report packages (some cached) n =
      if text_eq cached.hash (compute_hash packages)
      then remind now key cached n
      else renew now key label report packages n

  abbrev pub process : ℕ → Text → Text → Report → Option (List PackageInfo) → Notices → Notices
  process now key label report none n = fall_back_on now key label report.counts n
  process now key label report (some []) n = no_updates now key n
  process now key label report (some (p ∷ ps)) n =
      compare_hash now key label report (p ∷ ps) (get n.contexts key) n

  -- `processServer`
  unfoldable pub process_server : ℕ → Text → Text → Report → Notices → Notices
  unfolding should_fire upsert_context split_message compute_hash compose get text_eq upsert_clear
      format_fallback_message
  process_server now key label report n = process now key label report report.packages n
