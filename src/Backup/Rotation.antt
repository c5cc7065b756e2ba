-- ===== src/Backup/Rotation.antt =====
-- Rotation of the backup directory: `selectForRotation` and `rotate` of services/backup.service.ts,
-- with the regular expressions of the names that it reads.
pub mod Oldest
use vpn_relay.Prelude.{
  ℕ, zero, suc, ◌-◌, Text, text, text_eq, text_leb, starts_with, leb, ◌==◌, if◌then◌else◌, Bool,
  true, false, not, ◌&&◌, ◌||◌, Option, none, some, List, [], ◌∷◌, ◌++◌, map, length, take, drop,
  any, keep,
}

abbrev pub is_digit : ℕ → Bool
is_digit c = leb b'0' c && leb c b'9'

pub data Class : Type 0 where
  digit dash : Class

abbrev pub in_class : Class → ℕ → Bool
in_class digit c = is_digit c
in_class dash c = c == b'-'

abbrev pub digits : ℕ → List Class → List Class
digits zero rest = rest
digits (suc n) rest = digit ∷ digits n rest

-- `\d{8}-\d{4}`
abbrev pub stamp_shape : List Class
stamp_shape = digits 8 (dash ∷ digits 4 [])

has_shape : List Class → Text → Bool
has_shape [] s = true
has_shape (k ∷ ks) [] = false
has_shape (k ∷ ks) (c ∷ s) = in_class k c && has_shape ks s

-- `STAMP_RE.exec(name)?.[1]`: the leftmost match
unfoldable pub stamp_of : Text → Option Text
unfolding has_shape
stamp_of [] = none
stamp_of (c ∷ s) =
    let rest = stamp_of s in if has_shape stamp_shape (c ∷ s) then some (take 13 (c ∷ s)) else rest

-- What `.` matches: any unit but the line terminators.
abbrev is_dot : ℕ → Bool
is_dot c = not (c == 10 || (c == 13 || (c == 0x2028 || c == 0x2029)))

-- `.*` and then the suffix at the end
dots_then : Text → Text → Bool
dots_then suffix [] = text_eq suffix []
dots_then suffix (c ∷ s) =
    let rest = dots_then suffix s in text_eq suffix (c ∷ s) || (is_dot c && rest)

-- `.+` and then the suffix at the end
abbrev some_dots_then : Text → Text → Bool
some_dots_then suffix [] = false
some_dots_then suffix (c ∷ s) = is_dot c && dots_then suffix s

-- `^prefix.+suffix$`
abbrev has_affixes : Text → Text → Text → Bool
has_affixes prefix suffix name =
    starts_with name prefix && some_dots_then suffix (drop (length prefix) name)

unfoldable pub is_bundle : Text → Bool
unfolding text_eq starts_with dots_then
is_bundle = has_affixes (text "vpn-backup-") (text ".tar.gz.enc")

unfoldable pub is_pre_restore : Text → Bool
unfolding text_eq starts_with dots_then
is_pre_restore = has_affixes (text "pre-restore-") (text ".db")

pub record Dated : Type 0 where
  pub name : Text
  pub stamp : Text

abbrev with_stamp : Text → Option Text → List Dated
with_stamp name none = []
with_stamp name (some stamp) = record { name = name; stamp = stamp } ∷ []

-- The matching names that have a stamp.
unfoldable pub dated : (Text → Bool) → List Text → List Dated
unfolding stamp_of
dated pattern [] = []
dated pattern (n ∷ ns) =
    let rest = dated pattern ns in if pattern n then with_stamp n (stamp_of n) ++ rest else rest

-- The comparator says that `a` comes before `b`.
abbrev pub comes_before : Dated → Dated → Bool
comes_before a b =
    if not (text_leb b.stamp a.stamp)
    then true
    else if not (text_leb a.stamp b.stamp)
    then false
    else not (text_leb b.name a.name)

unfoldable pub insert : Dated → List Dated → List Dated
insert d [] = d ∷ []
insert d (e ∷ es) = let rest = insert d es in if comes_before e d then e ∷ rest else d ∷ e ∷ es

unfoldable pub sort : List Dated → List Dated
unfolding insert
sort [] = []
sort (d ∷ ds) = insert d (sort ds)

abbrev pub name_of : Dated → Text
name_of d = d.name

-- `dated.length <= keep ? [] : dated.slice(0, dated.length - keep)`
abbrev pub oldest : ℕ → List Dated → List Dated
oldest keep ds = if leb (length ds) keep then [] else take (length ds - keep) ds

unfoldable pub select_for_rotation : (Text → Bool) → ℕ → List Text → List Text
unfolding dated sort
select_for_rotation pattern keep names = map name_of (oldest keep (sort (dated pattern names)))

-- `rotate`: the names of the directory afterwards, or `none` where it cannot be read
unfoldable pub rotate : (Text → Bool) → ℕ → Option (List Text) → Option (List Text)
unfolding select_for_rotation text_eq
rotate pattern kept none = none
rotate pattern kept (some names) =
    let old = select_for_rotation pattern kept names in
    some (keep (λ n. not (any (text_eq n) old)) names)
