-- ===== src/Backup/Bundle.antt =====
-- The pure helpers of services/backup.service.ts: the entries that a bundle may have, and the parts of
-- its name. A type of entry that is not "File" is any other text.
use vpn_relay.Prelude.{
  ℕ, ◌+◌, ◌/◌, ◌%◌, Text, text, text_eq, starts_with, ltb, leb, ◌==◌, if◌then◌else◌, Bool, false,
  not, ◌&&◌, ◌||◌, Option, none, some, [], ◌∷◌, ◌++◌, map, keep,
}
use vpn_relay.Prelude.Dict.{Dict, get}

-- A header of an archive.
pub record Entry : Type 0 where
  pub path : Text
  pub type : Text
  pub size : ℕ

pub data Violation : Type 0 where
  not_regular unsafe_path unexpected too_large too_many : Violation

-- `s.includes("..")`
unfoldable pub has_dots : Text → Bool
unfolding starts_with
has_dots [] = false
has_dots (c ∷ s) = starts_with (c ∷ s) (text "..") || has_dots s

abbrev pub small_cap : ℕ
small_cap = 4096

-- `ALLOWED_ENTRIES`
abbrev pub allowed_entries : Dict ℕ
allowed_entries =
    (text "manifest.json", 65536)
    ∷ (text "data.db", 268435456)
    ∷ (text "backup.passphrase", small_cap)
    ∷ (text "xray/reality.key", small_cap)
    ∷ (text "xray/reality.pub", small_cap)
    ∷ (text "xray/shortid", small_cap)
    ∷ (text "singbox/obfs.pw", small_cap)
    ∷ (text "wg/wg-clients.key", small_cap)
    ∷ []

abbrev pub max_entries : ℕ
max_entries = 16

abbrev check_size : ℕ → Option ℕ → Option Violation
check_size size none = some unexpected
check_size size (some cap) = if ltb cap size then some too_large else none

-- `checkEntry`: what is wrong with the entry
unfoldable pub check_entry : Entry → Option Violation
unfolding has_dots text_eq starts_with get
check_entry entry =
    if not (text_eq entry.type (text "File"))
    then some not_regular
    else if has_dots entry.path || starts_with entry.path (text "/")
    then some unsafe_path
    else check_size entry.size (get allowed_entries entry.path)

-- `s.split(".")[0]`
unfoldable pub before_dot : Text → Text
before_dot [] = []
before_dot (c ∷ s) = let rest = before_dot s in if c == b'.' then [] else c ∷ rest

abbrev dash_for_dot : ℕ → ℕ
dash_for_dot c = if c == b'.' then b'-' else c

-- `toLowerCase` of an ASCII unit; a host name has no others
abbrev to_lower : ℕ → ℕ
to_lower c = if leb b'A' c && leb c b'Z' then c + 32 else c

abbrev is_label_unit : ℕ → Bool
is_label_unit c = (leb b'a' c && leb c b'z') || ((leb b'0' c && leb c b'9') || c == b'-')

abbrev raw_label : Option Text → Text → Text
raw_label (some (c ∷ s)) server_b_host = before_dot (c ∷ s)
raw_label (some []) server_b_host = map dash_for_dot server_b_host
raw_label none server_b_host = map dash_for_dot server_b_host

abbrev or_node : Text → Text
or_node [] = text "node"
or_node (c ∷ s) = c ∷ s

-- `bundleLabel`
unfoldable pub bundle_label : Option Text → Text → Text
unfolding before_dot
bundle_label tma_domain server_b_host =
    or_node (keep is_label_unit (map to_lower (raw_label tma_domain server_b_host)))

-- The parts of a `Date` in UTC.
pub record UtcDate : Type 0 where
  pub year : ℕ
  pub month : ℕ
  pub day : ℕ
  pub hour : ℕ
  pub minute : ℕ

-- `String(n).padStart(2, "0")` of a number below 100
abbrev pub two_digits : ℕ → Text
two_digits n = (48 + n / 10) ∷ (48 + n % 10) ∷ []

-- `bundleStamp` of a date in the years 1000 to 9999
unfoldable pub bundle_stamp : UtcDate → Text
bundle_stamp d =
    two_digits (d.year / 100)
    ++ (two_digits (d.year % 100)
        ++ (two_digits d.month
            ++ (two_digits d.day
                ++ (text "-" ++ (two_digits d.hour ++ (two_digits d.minute ++ []))))))

-- `vpn-backup-${label}-${stamp}Z.tar.gz.enc`
unfoldable pub bundle_name : Text → UtcDate → Text
unfolding bundle_stamp
bundle_name label now =
    text "vpn-backup-" ++ (label ++ (text "-" ++ (bundle_stamp now ++ text "Z.tar.gz.enc")))
