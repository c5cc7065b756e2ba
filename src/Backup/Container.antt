-- ===== src/Backup/Container.antt =====
-- services/backup.container.ts. A buffer is a list of bytes. Node's crypto is the parameter `Crypto`.
pub mod RoundTrip
use vpn_relay.Prelude.{
  ℕ, ◌+◌, ◌-◌, Text, text, text_eq, ltb, leb, if◌then◌else◌, Bool, not, ◌&&◌, Option, none, some,
  List, ◌++◌, length, take, drop, ◌≡◌,
}

abbrev pub Bytes : Type 0
Bytes = List ℕ

abbrev pub magic : Bytes
magic = text "VPNRB1"

abbrev pub salt_len : ℕ
salt_len = 16

abbrev pub iv_len : ℕ
iv_len = 12

abbrev pub tag_len : ℕ
tag_len = 16

abbrev pub header_len : ℕ
header_len = 6 + salt_len + iv_len

-- scryptSync and AES-256-GCM: `seal` gives the ciphertext and the tag, `unseal` throws (`none`) when the
-- tag does not fit. The laws are those of authenticated encryption that a round trip needs.
pub record Crypto : Type 1 where
  pub Key : Type 0
  pub derive_key : Text → Bytes → Key
  pub seal : Key → Bytes → Bytes → Bytes × Bytes
  pub unseal : Key → Bytes → Bytes → Bytes → Option Bytes
  pub tag_length : (key : Key) (iv plaintext : Bytes) → length (seal key iv plaintext).1 ≡ tag_len
  pub unseal-seal :
      (key : Key) (iv plaintext : Bytes)
      → unseal key iv (seal key iv plaintext).1 (seal key iv plaintext).0 ≡ some plaintext

pub data Opened : Type 0 where
  ok : Bytes → Opened
  truncated bad_magic auth_failed : Opened

-- `b.subarray(from, to)` and `b.subarray(from)`
abbrev pub subarray : Bytes → ℕ → ℕ → Bytes
subarray b from to = take (to - from) (drop from b)

abbrev opened : Option Bytes → Opened
opened none = auth_failed
opened (some plaintext) = ok plaintext

-- `looksLikeContainer`
unfoldable pub looks_like_container : Bytes → Bool
looks_like_container head =
    leb (length magic) (length head) && text_eq (subarray head 0 (length magic)) magic

module _ (c : Crypto) where
  open c use {derive_key, seal, unseal}

  -- `encryptContainer`; the salt and the iv are random
  unfoldable pub encrypt_container : Bytes → Bytes → Bytes → Text → Bytes
  encrypt_container salt iv plaintext passphrase =
      let (ciphertext, tag) = seal (derive_key passphrase salt) iv plaintext in
      magic ++ (salt ++ (iv ++ (ciphertext ++ tag)))

  -- `decryptContainer`
  unfoldable pub decrypt_container : Bytes → Text → Opened
  decrypt_container container passphrase =
      if ltb (length container) (header_len + tag_len)
      then truncated
      else if not (text_eq (subarray container 0 (length magic)) magic)
      then bad_magic
      else (let salt = subarray container (length magic) (length magic + salt_len) in
          let iv = subarray container (length magic + salt_len) header_len in
          let tag = drop (length container - tag_len) container in
          let ciphertext = subarray container header_len (length container - tag_len) in
          opened (unseal (derive_key passphrase salt) iv tag ciphertext))
