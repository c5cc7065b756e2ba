-- ===== src/Updates.antt =====
-- workers/updates.worker.ts: the texts of the messages. Texts are lists of UTF-16 code units; the ones
-- outside ASCII are written as numbers.
pub mod Split
pub mod Groups
pub mod Changelog
pub mod Message
pub mod Server
use vpn_relay.Prelude.{
  ℕ, zero, suc, ◌+◌, ◌-◌, ◌/◌, ◌%◌, ◌≤◌, ◌<◌, min, Text, text, text_eq, text_leb, starts_with, ltb,
  leb, ◌==◌, if◌then◌else◌, Bool, true, false, not, ◌&&◌, ◌||◌, Option, none, some, List, [], ◌∷◌,
  ◌++◌, map, length, take, drop, any, keep,
}
use vpn_relay.Prelude.Dict.{Dict, get, put, remove}

abbrev pub newline : ℕ
newline = 10

-- `s.lastIndexOf(needle, pos)` of a needle that is not empty
unfoldable pub last_index_of : Text → ℕ → Text → Option ℕ
unfolding starts_with
last_index_of needle pos [] = none
last_index_of needle zero (c ∷ s) = if starts_with (c ∷ s) needle then some 0 else none
last_index_of needle (suc pos) (c ∷ s) =
    let rest = last_index_of needle pos s in
    elim rest [ some i ↦ some (suc i) | none ↦ if starts_with (c ∷ s) needle then some 0 else none ]

-- The index, or what follows where it is at most 0.
abbrev pub or_else : Option ℕ → ℕ → ℕ
or_else none other = other
or_else (some zero) other = other
or_else (some (suc i)) other = suc i

-- `splitIdx`: before the last blank line, or else the last line break, or else at the limit
unfoldable pub split_index : ℕ → Text → ℕ
unfolding last_index_of
split_index max_len s =
    or_else (last_index_of (newline ∷ newline ∷ []) max_len s)
      (or_else (last_index_of (newline ∷ []) max_len s) max_len)

-- `s.replace(/^\n+/, "")`
unfoldable pub strip : Text → Text
strip [] = []
strip (c ∷ s) = let rest = strip s in if c == newline then rest else c ∷ s

abbrev pub last_part : Text → List Text
last_part [] = []
last_part (c ∷ s) = (c ∷ s) ∷ []

abbrev pub cons_part : Text → Option (List Text) → Option (List Text)
cons_part p none = none
cons_part p (some ps) = some (p ∷ ps)

-- The `while` loop, with the rounds left: `none` when they run out.
unfoldable pub split_loop : ℕ → ℕ → Text → Option (List Text)
unfolding split_index strip
split_loop zero max_len s = none
split_loop (suc fuel) max_len s =
    let k = split_index max_len s in
    let rest = split_loop fuel max_len (strip (drop k s)) in
    if ltb max_len (length s) then cons_part (take k s) rest else some (last_part s)

-- `splitMessage`: a round takes at least one unit away
unfoldable pub split_message : ℕ → Text → Option (List Text)
unfolding split_loop
split_message max_len s =
    if leb (length s) max_len then some (s ∷ []) else split_loop (suc (length s)) max_len s

abbrev pub max_message_len : ℕ
max_message_len = 4000

abbrev is_boundary : ℕ → Bool
is_boundary c = c == b'.' || c == b'-'

-- `commonEnd`: the last boundary in the common prefix
unfoldable pub common_end : ℕ → ℕ → Text → Text → ℕ
common_end i end [] new = end
common_end i end (a ∷ old) [] = end
common_end i end (a ∷ old) (b ∷ new) =
    let rest = common_end (i + 1) (if is_boundary a then i else end) old new in
    if a == b then rest else end

abbrev pub arrow : Text
arrow = 32 ∷ 0x2192 ∷ 32 ∷ []

-- `abbreviateVersion`
unfoldable pub abbreviate_version : Text → Text → Text
unfolding common_end
abbreviate_version old new =
    let end = common_end 0 0 old new in
    if leb 4 end then old ++ (arrow ++ (b'.' ∷ drop (end + 1) new)) else old ++ (arrow ++ new)

pub record PackageInfo : Type 0 where
  pub name : Text
  pub old_version : Text
  pub new_version : Text
  pub is_security : Bool

-- ChangelogSummary and PackageSummary: identifiers of CVEs and a text
pub record Summary : Type 0 where
  pub cves : List Text
  pub summary : Text

abbrev summary_of : Option Summary → Text
summary_of none = []
summary_of (some s) = s.summary

abbrev cves_of : Option Summary → List Text
cves_of none = []
cves_of (some s) = s.cves

abbrev or_text : Text → Text → Text
or_text [] other = other
or_text (c ∷ s) other = c ∷ s

-- `[...new Set(cves)]`, with those that have come before
abbrev pub distinct : List Text → List Text → List Text
distinct seen [] = []
distinct seen (c ∷ cs) =
    let rest = distinct (c ∷ seen) cs in
    let known = distinct seen cs in if any (text_eq c) seen then known else c ∷ rest

abbrev ai_summary : Option (Dict Summary) → Text → Option Summary
ai_summary none name = none
ai_summary (some summaries) name = get summaries name

-- `mergeSummary`
unfoldable pub merge_summary : Text → Dict Summary → Option (Dict Summary) → Summary
unfolding get text_eq
merge_summary name regex_parsed ai_summaries =
    let ai = ai_summary ai_summaries name in
    let rx = get regex_parsed name in
    record {
      cves = distinct [] (cves_of rx ++ cves_of ai);
      summary = or_text (summary_of ai) (summary_of rx);
    }

pub record SecurityGroup : Type 0 where
  pub packages : List PackageInfo
  pub cves : List Text
  pub summary : Text

abbrev pub insert_text : Text → List Text → List Text
insert_text s [] = s ∷ []
insert_text s (t ∷ ts) =
    let rest = insert_text s ts in if text_leb s t then s ∷ t ∷ ts else t ∷ rest

-- `texts.sort()`
abbrev pub sort_texts : List Text → List Text
sort_texts [] = []
sort_texts (t ∷ ts) = insert_text t (sort_texts ts)

-- `texts.join(sep)`
abbrev pub join : Text → List Text → Text
join sep [] = []
join sep (s ∷ []) = s
join sep (s ∷ t ∷ ts) = s ++ (sep ++ join sep (t ∷ ts))

-- The fingerprint of a package's CVEs.
unfoldable pub group_key : PackageInfo → List Text → Text
unfolding text_leb
group_key p [] = text "__solo__" ++ p.name
group_key p (c ∷ cves) = join (text "|") (sort_texts (c ∷ cves))

abbrev pub longer : Text → Text → Text
longer s t = if ltb (length t) (length s) then s else t

abbrev pub join_group : PackageInfo → Text → SecurityGroup → SecurityGroup
join_group p summary g = record g {
  packages = g.packages ++ p ∷ [];
  summary = longer summary g.summary;
}

-- `groups[idx] = f(groups[idx])`
abbrev pub update_at : ℕ → (SecurityGroup → SecurityGroup) → List SecurityGroup → List SecurityGroup
update_at i f [] = []
update_at zero f (g ∷ gs) = f g ∷ gs
update_at (suc i) f (g ∷ gs) = g ∷ update_at i f gs

pub record Grouping : Type 0 where
  pub groups : List SecurityGroup
  pub key_to_idx : Dict ℕ

abbrev pub place : PackageInfo → Summary → Text → Option ℕ → Grouping → Grouping
place p merged key (some idx) g = record g {
  groups = update_at idx (join_group p merged.summary) g.groups;
}
place p merged key none g = record {
  groups =
      g.groups ++ record { packages = p ∷ []; cves = merged.cves; summary = merged.summary } ∷ [];
  key_to_idx = put g.key_to_idx key (length g.groups);
}

abbrev pub place_merged : PackageInfo → Summary → Grouping → Grouping
place_merged p merged g =
    let key = group_key p merged.cves in place p merged key (get g.key_to_idx key) g

unfoldable pub group_from :
    Dict Summary → Option (Dict Summary) → List PackageInfo → Grouping → Grouping
unfolding merge_summary group_key get put remove text_eq
group_from regex_parsed ai_summaries [] g = g
group_from regex_parsed ai_summaries (p ∷ ps) g =
    group_from regex_parsed ai_summaries ps
      (place_merged p (merge_summary p.name regex_parsed ai_summaries) g)

-- `groupByCves`
unfoldable pub group_by_cves :
    List PackageInfo → Dict Summary → Option (Dict Summary) → List SecurityGroup
unfolding group_from
group_by_cves security regex_parsed ai_summaries =
    (group_from regex_parsed ai_summaries security (record { groups = []; key_to_idx = [] })).groups
