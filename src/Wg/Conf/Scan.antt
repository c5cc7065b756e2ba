-- ===== src/Wg/Conf/Scan.antt =====
-- `parseConfIps` of services/wg.conf.ts: the matches of
-- /AllowedIPs\s*=\s*10\.66\.0\.(\d{1,3})\/32/g, from left to right.
use vpn_relay.Prelude.{
  ℕ, zero, suc, Text, text, length, if◌then◌else◌, Option, none, some, List, [], ◌∷◌,
}
use mathlib.Core.Path.{◌≡◌, refl}
use vpn_relay.Wg.Conf.{is_space, is_digit, strip_prefix, net_dot, decimal_from}

-- `\s*`
pub skip_spaces : Text → Text
skip_spaces [] = []
skip_spaces (c ∷ s) = if is_space c then skip_spaces s else c ∷ s

-- At most `n` digits, as many as there are, and the rest.
pub take_digits : ℕ → Text → Text × Text
take_digits zero s = ([], s)
take_digits (suc n) [] = ([], [])
take_digits (suc n) (c ∷ s) =
    let (ds, rest) = take_digits n s in if is_digit c then (c ∷ ds, rest) else ([], c ∷ s)

-- (\d{1,3})\/32
unfoldable pub match_octet : Text → Option (ℕ × Text)
unfolding take_digits strip_prefix decimal_from
match_octet s = elim (take_digits 3 s).0 [
  | [] ↦ none
  | d ∷ ds ↦ elim (strip_prefix (text "/32") (take_digits 3 s).1) [
    | none ↦ none
    | some rest ↦ some (decimal_from 0 (d ∷ ds), rest)
  ]
]

-- `\s*` and the rest of the pattern behind a literal
abbrev after_spaces {ℓ} : {A : Type ℓ} → (Text → Option A) → Option Text → Option A
after_spaces f none = none
after_spaces f (some s) = f s

-- A match at the front of the text: its octet, and the text behind it.
unfoldable pub match_allowed_ips : Text → Option (ℕ × Text)
unfolding match_octet strip_prefix skip_spaces
match_allowed_ips s =
    after_spaces
      (λ t.
        after_spaces (λ u. after_spaces match_octet (strip_prefix net_dot (skip_spaces u)))
          (strip_prefix (text "=") (skip_spaces t)))
      (strip_prefix (text "AllowedIPs") s)

-- The scan takes at most one round for each character.
pub scan : ℕ → Text → List ℕ
unfolding match_allowed_ips
scan zero s = []
scan (suc n) [] = []
scan (suc n) (c ∷ s) = elim (match_allowed_ips (c ∷ s)) [
  | none ↦ scan n s
  | some (octet, rest) ↦ octet ∷ scan n rest
]

unfoldable pub parse_conf_ips : Text → List ℕ
unfolding scan
parse_conf_ips conf = scan (length conf) conf

two_peers :
    parse_conf_ips (text "[Peer]\nAllowedIPs = 10.66.0.7/32\n# AllowedIPs=10.66.0.254/32")
    ≡ 7 ∷ 254 ∷ []
unfolding parse_conf_ips
two_peers = refl
