-- ===== src/Updates/Message.antt =====
-- `formatServerMessage` and `formatFallbackMessage` of workers/updates.worker.ts.
use vpn_relay.Prelude.{
  decimal, ℕ, zero, suc, ◌-◌, Text, text, ◌==◌, if◌then◌else◌, Bool, true, false, not, ◌&&◌, ◌||◌,
  Option, none, some, List, [], ◌∷◌, ◌++◌, map, length, take, keep,
}
use vpn_relay.Prelude.Dict.{Dict}
use vpn_relay.Updates.{
  newline, join, PackageInfo, Summary, SecurityGroup, abbreviate_version, merge_summary,
  group_by_cves,
}

abbrev is_special : ℕ → Bool
is_special c = c == b'*' || (c == b'_' || (c == 96 || c == b'['))

-- `escapeMarkdown` of utils/telegram.ts
unfoldable pub escape_markdown : Text → Text
escape_markdown [] = []
escape_markdown (c ∷ s) =
    let rest = escape_markdown s in if is_special c then 92 ∷ c ∷ rest else c ∷ rest

abbrev pub max_regular_shown : ℕ
max_regular_shown = 5

abbrev box : Text
box = 0xD83D ∷ 0xDCE6 ∷ []

abbrev lock : Text
lock = 0xD83D ∷ 0xDD12 ∷ []

abbrev bullet : Text
bullet = 0x2022 ∷ 32 ∷ []

abbrev long_dash : Text
long_dash = 32 ∷ 0x2014 ∷ 32 ∷ []

-- `[name](…/+changelog) old → new`
unfoldable pub package_part : PackageInfo → Text
unfolding escape_markdown abbreviate_version
package_part p =
    text "["
    ++ (escape_markdown p.name
        ++ (text "](https://launchpad.net/ubuntu/+source/"
            ++ (p.name
                ++ (text "/+changelog) " ++ abbreviate_version p.old_version p.new_version))))

abbrev cve_link : Text → Text
cve_link c = text "[" ++ (c ++ (text "](https://nvd.nist.gov/vuln/detail/" ++ (c ++ text ")")))

abbrev is_nonempty : Text → Bool
is_nonempty [] = false
is_nonempty (c ∷ s) = true

abbrev details : SecurityGroup → List Text
details g =
    keep is_nonempty (join (text ", ") (map cve_link g.cves) ∷ escape_markdown g.summary ∷ [])

abbrev details_line : List Text → List Text
details_line [] = []
details_line (d ∷ ds) = (text "  " ++ join (text ": ") (d ∷ ds)) ∷ []

unfoldable pub group_lines : SecurityGroup → List Text
unfolding package_part escape_markdown
group_lines g =
    (bullet ++ join (text ", ") (map package_part g.packages)) ∷ details_line (details g)

abbrev all_lines : List SecurityGroup → List Text
all_lines [] = []
all_lines (g ∷ gs) = group_lines g ++ all_lines gs

abbrev security_lines : List PackageInfo → Dict Summary → Option (Dict Summary) → List Text
security_lines [] rx ai = []
security_lines (p ∷ ps) rx ai =
    (lock ++ (text " *Security (" ++ (decimal (length (p ∷ ps)) ++ text "):*")))
    ∷ (all_lines (group_by_cves (p ∷ ps) rx ai) ++ [] ∷ [])

abbrev with_summary : Text → Text
with_summary [] = []
with_summary (c ∷ s) = long_dash ++ escape_markdown (c ∷ s)

abbrev regular_line : Dict Summary → Option (Dict Summary) → PackageInfo → Text
regular_line rx ai p =
    bullet ++ (package_part p ++ with_summary (merge_summary p.name rx ai).summary)

abbrev more_line : ℕ → List Text
more_line zero = []
more_line (suc n) = (bullet ++ (0x2026 ∷ (text " and " ++ (decimal (suc n) ++ text " more")))) ∷ []

abbrev regular_lines : List PackageInfo → Dict Summary → Option (Dict Summary) → List Text
regular_lines [] rx ai = []
regular_lines (p ∷ ps) rx ai =
    (box ++ (text " *Regular (" ++ (decimal (length (p ∷ ps)) ++ text "):*")))
    ∷ (map (regular_line rx ai) (take max_regular_shown (p ∷ ps))
        ++ more_line (length (p ∷ ps) - max_regular_shown))

abbrev plural : ℕ → Text
plural n = if n == 1 then [] else text "s"

abbrev pub security_of : List PackageInfo → List PackageInfo
security_of = keep (λ p. p.is_security)

abbrev pub regular_of : List PackageInfo → List PackageInfo
regular_of = keep (λ p. not p.is_security)

-- `formatServerMessage`
unfoldable pub format_server_message :
    Text → List PackageInfo → Dict Summary → Option (Dict Summary) → Text
unfolding decimal group_lines group_by_cves package_part escape_markdown merge_summary
format_server_message label packages rx ai = join (newline ∷ []) (
    (box
      ++ (text " *"
          ++ (label
              ++ (text "*"
                  ++ (long_dash
                      ++ (decimal (length packages)
                          ++ (text " update" ++ plural (length packages))))))))
    ∷ []
    ∷ (security_lines (security_of packages) rx ai ++ regular_lines (regular_of packages) rx ai))

abbrev count_part : ℕ → Text → List Text
count_part zero kind = []
count_part (suc n) kind = (decimal (suc n) ++ kind) ∷ []

-- `formatFallbackMessage`
unfoldable pub format_fallback_message : Text → ℕ → ℕ → Option Text
unfolding decimal
format_fallback_message label security_count total_count =
    if security_count == 0 && total_count == 0
    then none
    else some (
        0x26A0
        ∷ 0xFE0F
        ∷ (text " *"
            ++ (label
                ++ (text "*: "
                    ++ (join (text " + ") (
                          count_part security_count (text " security")
                          ++ count_part (total_count - security_count) (text " regular"))
                        ++ text " updates pending.")))))
