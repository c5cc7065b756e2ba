-- ===== src/Wg/Conf/Render/Blocks.antt =====
-- One block of renderPeerBlock of wg.conf.ts: its lines hold no newline, and the loop of renderConf
-- drops them all.
use vpn_relay.Prelude.{
  ℕ, Text, text, starts_with, starts_with-append, ◌≡◌, refl, subst, some, Option-cases, inl, inr,
  zero, suc, List, [], ◌∷◌, ◌++◌, All, all, true, false, arith,
}
use vpn_relay.Wg.Conf.{
  begin_marker, end_marker, DesiredPeer, block_lines, strip_blocks, is_word, is_digit,
  base64_then_pad, strip_prefix, net_dot, octet_of, octet_in_range, octet_of_rest, is_valid_name,
  is_valid_pubkey, is_valid_wg_ip,
}
use vpn_relay.Wg.Conf.Lines.{IsLine, IsLine-append}

-- A row that passes the checks of `buildDesiredPeers`.
pub record IsRenderable (p : DesiredPeer) : Type 0 where
  pub name : is_valid_name p.name ≡ true
  pub pubkey : is_valid_pubkey p.pubkey ≡ true
  pub ip : is_valid_wg_ip p.ip ≡ true

name-IsLine : (s : Text) → all is_word s ≡ true → IsLine s
name-IsLine [] h = tt
name-IsLine (c ∷ s) h = (λ e. ground arith, name-IsLine s (ground arith))

-- A name starts with no text that has a unit which names may not have.
starts_with-word :
    (s p : Text) → all is_word s ≡ true → all is_word p ≡ false → starts_with s p ≡ false
unfolding starts_with
starts_with-word s [] h q = cc
starts_with-word [] (b ∷ p) h q = refl
starts_with-word (a ∷ s) (b ∷ p) h q = ground (arith, starts_with-word s p)

base64-IsLine : (n : ℕ) (s : Text) → base64_then_pad n s ≡ true → IsLine s
unfolding base64_then_pad
base64-IsLine zero [] h = tt
base64-IsLine zero (c ∷ []) h = (λ e. ground arith, tt)
base64-IsLine zero (c ∷ d ∷ s) h = cc
base64-IsLine (suc n) [] h = tt
base64-IsLine (suc n) (c ∷ s) h = (λ e. ground arith, base64-IsLine n s (ground arith))

pubkey-IsLine : (s : Text) → is_valid_pubkey s ≡ true → IsLine s
unfolding is_valid_pubkey
pubkey-IsLine s h = base64-IsLine 43 s h

digits-IsLine : (s : Text) → all is_digit s ≡ true → IsLine s
digits-IsLine [] h = tt
digits-IsLine (c ∷ s) h = (λ e. ground arith, digits-IsLine s (ground arith))

strip_prefix-IsLine :
    (p s : Text) {r : Text} → strip_prefix p s ≡ some r → IsLine p → IsLine r → IsLine s
unfolding strip_prefix
strip_prefix-IsLine [] s {r} e hp hr = let q : r ≡ s = cc in subst IsLine q hr
strip_prefix-IsLine (b ∷ p) [] e hp hr = tt
strip_prefix-IsLine (b ∷ p) (a ∷ s) e hp hr =
    (λ q. hp.0 (ground arith), strip_prefix-IsLine p s (ground arith) hp.1 hr)

octet-digits : (s : Text) → octet_in_range (octet_of s) ≡ true → all is_digit s ≡ true
unfolding octet_of
octet-digits s h = ground arith

net_dot-IsLine : IsLine net_dot
net_dot-IsLine = omega arith

octet_of-stripped :
    (s r : Text)
    → strip_prefix net_dot s ≡ some r
    → is_valid_wg_ip s ≡ true
    → octet_in_range (octet_of r) ≡ true
unfolding is_valid_wg_ip
octet_of-stripped s r e h = rw (e, octet_of_rest) at h

ip-IsLine : (s : Text) → is_valid_wg_ip s ≡ true → IsLine s
unfolding is_valid_wg_ip
ip-IsLine s h = elim (Option-cases (strip_prefix net_dot s)) [
  | inl e ↦ absurd (ground arith)
  | inr (r, e) ↦
      strip_prefix-IsLine net_dot s e net_dot-IsLine
        (digits-IsLine r (octet-digits r (octet_of-stripped s r e h)))
]

literal_name-IsLine : (p s : Text) → IsLine p → is_valid_name s ≡ true → IsLine (p ++ s)
unfolding is_valid_name
literal_name-IsLine p s hp h = IsLine-append p s hp (name-IsLine s (ground arith))

pub block_lines-IsLine : (p : DesiredPeer) → IsRenderable p → All IsLine (block_lines p)
unfolding block_lines
block_lines-IsLine p h =
    let name_line = literal_name-IsLine begin_marker p.name (omega arith) h.name in
    let comment_line = literal_name-IsLine (text "# ") p.name (omega arith) h.name in
    let key_line =
      IsLine-append (text "PublicKey = ") p.pubkey (omega arith)
        (pubkey-IsLine p.pubkey h.pubkey) in
    let ip_line =
      IsLine-append (text "AllowedIPs = ") (p.ip ++ text "/32") (omega arith)
        (IsLine-append p.ip (text "/32") (ip-IsLine p.ip h.ip) (omega arith)) in
    let end_line = literal_name-IsLine end_marker p.name (omega arith) h.name in
    (name_line, (omega arith, (comment_line, (key_line, (ip_line, (end_line, tt))))))

starts_with-comment :
    (s p : Text) → is_valid_name s ≡ true → all is_word p ≡ false → starts_with s p ≡ false
unfolding is_valid_name
starts_with-comment s p h q = starts_with-word s p (ground arith) q

-- The loop of `renderConf` passes over a whole rendered block, and is outside again behind it.
pub strip_blocks-block_lines :
    (p : DesiredPeer) (rest : List Text)
    → IsRenderable p
    → strip_blocks false (block_lines p ++ rest) ≡ strip_blocks false rest
unfolding strip_blocks block_lines starts_with
strip_blocks-block_lines p rest h = rw (
  starts_with-append begin_marker p.name,
  starts_with-append end_marker p.name,
  starts_with-comment p.name (text "BEGIN CLIENT ") h.name refl,
  starts_with-comment p.name (text "END CLIENT ") h.name refl,
)
