-- ===== src/Wg/Conf.antt =====
-- bot/packages/server/src/services/wg.conf.ts: validation of rows and rendering of the conf.
-- A conf is a `Text`; `split_lines` and `join_lines` are `split("\n")` and `join("\n")`.
pub mod Lines
pub mod Render
pub mod Scan
use Prim.Native.Nat.{compare}
use vpn_relay.Prelude.{
  ℕ, zero, suc, ◌+◌, ◌*◌, ◌-◌, Text, text, text_eq, starts_with, String, ◌==◌, leb, ltb,
  if◌then◌else◌, Bool, true, false, not, ◌&&◌, ◌||◌, Option, none, some, List, [], ◌∷◌, ◌++◌, map,
  length, all,
}

abbrev pub newline : ℕ
newline = 10

abbrev pub begin_marker : Text
begin_marker = text "# BEGIN CLIENT "

abbrev pub end_marker : Text
end_marker = text "# END CLIENT "

abbrev pub wg_net : Text
wg_net = text "10.66.0"

abbrev pub wg_ip_start : ℕ
wg_ip_start = 2

abbrev pub wg_ip_end : ℕ
wg_ip_end = 254

-- Character classes of the regular expressions.
abbrev pub is_digit : ℕ → Bool
is_digit c = leb b'0' c && leb c b'9'

abbrev pub is_alpha : ℕ → Bool
is_alpha c = (leb b'a' c && leb c b'z') || (leb b'A' c && leb c b'Z')

abbrev pub is_word : ℕ → Bool
is_word c = is_alpha c || is_digit c || c == b'_'

abbrev pub is_base64 : ℕ → Bool
is_base64 c = is_alpha c || is_digit c || c == b'+' || c == b'/'

-- `NAME_RE`: /^[a-zA-Z0-9_]{1,32}$/
unfoldable pub is_valid_name : Text → Bool
is_valid_name s = leb 1 (length s) && leb (length s) 32 && all is_word s

-- /^[A-Za-z0-9+/]{n}=$/
unfoldable pub base64_then_pad : ℕ → Text → Bool
base64_then_pad zero (c ∷ []) = c == b'='
base64_then_pad zero _ = false
base64_then_pad (suc n) [] = false
base64_then_pad (suc n) (c ∷ s) = is_base64 c && base64_then_pad n s

-- `PUBKEY_RE`: /^[A-Za-z0-9+/]{43}=$/
unfoldable pub is_valid_pubkey : Text → Bool
unfolding base64_then_pad
is_valid_pubkey s = base64_then_pad 43 s

-- The rest of `s` behind the literal `p`, if `s` starts with it.
unfoldable pub strip_prefix : Text → Text → Option Text
strip_prefix [] s = some s
strip_prefix (b ∷ p) [] = none
strip_prefix (b ∷ p) (a ∷ s) = if a == b then strip_prefix p s else none

-- `parseInt(s, 10)` of a text of digits
unfoldable pub decimal_from : ℕ → Text → ℕ
decimal_from n [] = n
decimal_from n (c ∷ s) = decimal_from (n * 10 + (c - 48)) s

-- (\d{1,3}) up to the end of the text
unfoldable pub octet_of : Text → Option ℕ
unfolding decimal_from
octet_of s =
    if leb 1 (length s) && leb (length s) 3 && all is_digit s then some (decimal_from 0 s) else none

abbrev pub net_dot : Text
net_dot = text "10.66.0."

abbrev pub octet_of_rest : Option Text → Option ℕ
octet_of_rest none = none
octet_of_rest (some rest) = octet_of rest

-- `IP_RE.exec(ip)`, with its captured group read by `parseInt`
unfoldable pub ip_octet : Text → Option ℕ
unfolding octet_of strip_prefix
ip_octet ip = octet_of_rest (strip_prefix net_dot ip)

abbrev pub octet_in_range : Option ℕ → Bool
octet_in_range none = false
octet_in_range (some octet) = leb wg_ip_start octet && leb octet wg_ip_end

unfoldable pub is_valid_wg_ip : Text → Bool
unfolding ip_octet
is_valid_wg_ip ip = octet_in_range (ip_octet ip)

pub record DesiredPeer : Type 0 where
  pub name : Text
  pub pubkey : Text
  pub ip : Text
  pub active : Bool

-- `s.split("\n")`: the first line with the lines behind it.
abbrev pub cons_first : ℕ → List Text → List Text
cons_first c [] = (c ∷ []) ∷ []
cons_first c (l ∷ ls) = (c ∷ l) ∷ ls

unfoldable pub split_lines : Text → List Text
split_lines [] = [] ∷ []
split_lines (c ∷ s) = if c == newline then [] ∷ split_lines s else cons_first c (split_lines s)

-- `ls.join("\n")`
unfoldable pub join_lines : List Text → Text
join_lines [] = []
join_lines (l ∷ []) = l
join_lines (l ∷ m ∷ ls) = l ++ newline ∷ join_lines (m ∷ ls)

-- The lines that `renderPeerBlock` joins.
unfoldable pub block_lines : DesiredPeer → List Text
block_lines peer =
    (begin_marker ++ peer.name)
    ∷ text "[Peer]"
    ∷ (text "# " ++ peer.name)
    ∷ (text "PublicKey = " ++ peer.pubkey)
    ∷ (text "AllowedIPs = " ++ (peer.ip ++ text "/32"))
    ∷ (end_marker ++ peer.name)
    ∷ []

unfoldable pub render_peer_block : DesiredPeer → Text
unfolding block_lines join_lines
render_peer_block peer = join_lines (block_lines peer)

-- `inBlock` behind a line, and whether the line is pushed on `kept`.
abbrev pub block_after : Bool → Text → Bool
block_after in_block line =
    if starts_with line begin_marker
    then true
    else if in_block
    then not (starts_with line end_marker)
    else false

abbrev pub is_kept_line : Bool → Text → Bool
is_kept_line in_block line = not (starts_with line begin_marker) && not in_block

-- The `for` loop of `renderConf`: the lines outside the managed blocks.
unfoldable pub strip_blocks : Bool → List Text → List Text
strip_blocks in_block [] = []
strip_blocks in_block (line ∷ rest) =
    let behind = strip_blocks (block_after in_block line) rest in
    if is_kept_line in_block line then line ∷ behind else behind

-- The white space and line ends that `trim` and `\s` know, by their code units.
abbrev pub is_space : ℕ → Bool
is_space c =
    c == 32
    || (leb 9 c && leb c 13)
    || c == 160
    || c == 5760
    || (leb 8192 c && leb c 8202)
    || c == 8232
    || c == 8233
    || c == 8239
    || c == 8287
    || c == 12288
    || c == 65279

-- `line.trim() === ""`
unfoldable pub is_blank : Text → Bool
is_blank line = all is_space line

-- A line in front of the lines that the loop of `pop` has left behind it.
unfoldable pub push_or_pop : Text → List Text → List Text
push_or_pop line [] = if is_blank line then [] else line ∷ []
push_or_pop line (m ∷ ls) = line ∷ m ∷ ls

-- `while (kept.length > 0 && kept[kept.length - 1].trim() === "") kept.pop()`
unfoldable pub pop_blank : List Text → List Text
unfolding is_blank push_or_pop
pop_blank [] = []
pop_blank (line ∷ rest) = push_or_pop line (pop_blank rest)

-- What `renderConf` keeps of the current conf.
unfoldable pub kept : Text → List Text
unfolding split_lines strip_blocks pop_blank
kept conf = pop_blank (strip_blocks false (split_lines conf))

-- `parts.join("\n\n")`
unfoldable pub join_parts : List Text → Text
join_parts [] = []
join_parts (p ∷ []) = p
join_parts (p ∷ q ∷ ps) = p ++ newline ∷ newline ∷ join_parts (q ∷ ps)

unfoldable pub render_conf : Text → List DesiredPeer → Text
unfolding kept join_parts render_peer_block
render_conf conf desired =
    join_parts (join_lines (kept conf) ∷ map render_peer_block desired) ++ newline ∷ []
