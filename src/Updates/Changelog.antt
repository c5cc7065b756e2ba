-- ===== src/Updates/Changelog.antt =====
-- `parseChangelog` of services/updates.service.ts: the CVEs of a changelog and its first bullet.
use vpn_relay.Prelude.{
  ℕ, zero, suc, ◌+◌, ◌-◌, Text, text, text_eq, starts_with, ltb, leb, ◌==◌, if◌then◌else◌, Bool,
  ◌&&◌, ◌||◌, List, [], ◌∷◌, ◌++◌, map, length, take, drop,
}
use vpn_relay.Updates.{Summary, newline, distinct}

abbrev is_digit : ℕ → Bool
is_digit c = leb b'0' c && leb c b'9'

-- `\s`, which is also what `trim` removes
abbrev pub is_space : ℕ → Bool
is_space c =
    (leb 9 c && leb c 13)
    || (c == 32
        || (c == 0xA0
            || (c == 0x1680
                || ((leb 0x2000 c && leb c 0x200A)
                    || (c == 0x2028
                        || (c == 0x2029
                            || (c == 0x202F || (c == 0x205F || (c == 0x3000 || c == 0xFEFF)))))))))

abbrev pub drop_spaces : Text → Text
drop_spaces [] = []
drop_spaces (c ∷ s) = let rest = drop_spaces s in if is_space c then rest else c ∷ s

-- The text without the spaces at its end.
abbrev pub drop_last_spaces : Text → Text
drop_last_spaces [] = []
drop_last_spaces (c ∷ s) =
    let rest = drop_last_spaces s in if is_space c && leb (length rest) 0 then [] else c ∷ rest

abbrev pub trim : Text → Text
trim s = drop_last_spaces (drop_spaces s)

-- How many digits the text begins with.
abbrev pub digit_run : Text → ℕ
digit_run [] = 0
digit_run (c ∷ s) = let rest = digit_run s in if is_digit c then suc rest else 0

-- `CVE-\d{4}-\d{4,}` at the head of the text: the length of the match, or 0
unfoldable pub cve_length : Text → ℕ
unfolding starts_with
cve_length s =
    if starts_with s (text "CVE-")
      && (leb 4 (digit_run (drop 4 s))
          && (starts_with (drop 8 s) (text "-") && leb 4 (digit_run (drop 9 s))))
    then 9 + digit_run (drop 9 s)
    else 0

-- `raw.matchAll(CVE_RE)`; the number counts what is left of the last match
unfoldable pub match_cves : ℕ → Text → List Text
unfolding cve_length
match_cves skip [] = []
match_cves (suc skip) (c ∷ s) = match_cves skip s
match_cves zero (c ∷ s) =
    let n = cve_length (c ∷ s) in
    let rest = match_cves (n - 1) s in if ltb 0 n then take n (c ∷ s) ∷ rest else rest

abbrev is_cve : Text → Bool
is_cve s = ltb 0 (cve_length s) && cve_length s == length s

abbrev pub split_at : ℕ → Text → List Text
split_at sep [] = [] ∷ []
split_at sep (c ∷ s) =
    let rest = split_at sep s in if c == sep then [] ∷ rest else cons_first c rest
  where
    cons_first : ℕ → List Text → List Text
    cons_first c [] = (c ∷ []) ∷ []
    cons_first c (l ∷ ls) = (c ∷ l) ∷ ls

abbrev to_lower : ℕ → ℕ
to_lower c = if leb b'A' c && leb c b'Z' then c + 32 else c

-- `text.replace(/^SECURITY UPDATE:\s*/i, "")`
abbrev without_security : Text → Text
without_security s =
    if starts_with (map to_lower s) (text "security update:") then drop_spaces (drop 16 s) else s

abbrev shortened : Text → Text
shortened s = if ltb 100 (length s) then take 97 s ++ text "..." else s

-- The text of a bullet line without its mark; empty for a line that is none, or is a CVE only.
unfoldable pub bullet : Text → Text
unfolding starts_with cve_length
bullet line =
    let trimmed = trim line in
    if starts_with trimmed (text "* ") || starts_with trimmed (text "- ")
    then (let s = without_security (trim (drop_spaces (drop 1 trimmed))) in
        if is_cve s then [] else s)
    else []

unfoldable pub first_bullet : List Text → Text
unfolding bullet
first_bullet [] = []
first_bullet (l ∷ ls) =
    let rest = first_bullet ls in if ltb 0 (length (bullet l)) then shortened (bullet l) else rest

-- `parseChangelog`
unfoldable pub parse_changelog : Text → Summary
unfolding match_cves first_bullet text_eq
parse_changelog raw = record {
  cves = distinct [] (match_cves 0 raw);
  summary = first_bullet (split_at newline raw);
}
