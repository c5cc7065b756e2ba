-- ===== src/Backup/Container/RoundTrip.antt =====
-- A container of services/backup.container.ts opens again with its passphrase.
use vpn_relay.Prelude.{
  ℕ, ◌+◌, ◌-◌, Text, text_eq, ltb, true, false, ◌++◌, length, take, drop, length-append,
  take-length-append, drop-length-append, ◌≡◌, refl, sym, ap, arith, ◌∙◌, append_assoc,
}
use vpn_relay.Backup.Container.{
  Bytes, magic, header_len, tag_len, salt_len, iv_len, Crypto, ok, subarray, encrypt_container,
  decrypt_container,
}

take-drop_middle :
    (xs ys zs : Bytes) (n m : ℕ)
    → length xs ≡ n
    → length ys ≡ m
    → take m (drop n (xs ++ (ys ++ zs))) ≡ ys
take-drop_middle xs ys zs n m hx hy = rw (← hx, ← hy, drop-length-append) (take-length-append ys zs)

drop_exact : (xs ys : Bytes) (n : ℕ) → length xs ≡ n → drop n (xs ++ ys) ≡ ys
drop_exact xs ys n h = rw (← h) (drop-length-append xs ys)

-- The parts of a container, cut out where `decryptContainer` looks for them.
module _ (salt iv ciphertext tag : Bytes) where
  whole : Bytes
  whole = magic ++ (salt ++ (iv ++ (ciphertext ++ tag)))

  header : Bytes
  header = magic ++ (salt ++ iv)

  module _ (hs : length salt ≡ salt_len) (hi : length iv ≡ iv_len) (ht : length tag ≡ tag_len) where
    length-whole : length whole ≡ header_len + length ciphertext + tag_len
    unfolding whole
    length-whole = omega (
      arith,
      length-append salt (iv ++ (ciphertext ++ tag)),
      length-append iv (ciphertext ++ tag),
      length-append ciphertext tag,
    )

    length-header : length header ≡ header_len
    unfolding header
    length-header = omega (arith, length-append salt iv)

    whole-header : whole ≡ header ++ (ciphertext ++ tag)
    unfolding whole header
    whole-header = ap (λ (t : Bytes). magic ++ t) (sym (append_assoc salt iv (ciphertext ++ tag)))

    salt_part : subarray whole (length magic) (length magic + salt_len) ≡ salt
    unfolding whole
    salt_part = take-drop_middle magic salt (iv ++ (ciphertext ++ tag)) 6 16 refl hs

    iv_part : subarray whole (length magic + salt_len) header_len ≡ iv
    unfolding whole
    iv_part = take-drop_middle (magic ++ salt) iv (ciphertext ++ tag) 22 12 (omega (arith, hs)) hi

    ciphertext_part : subarray whole header_len (length whole - tag_len) ≡ ciphertext
    ciphertext_part =
        ap (λ (t : Bytes). take (length whole - tag_len - header_len) (drop header_len t))
          whole-header
        ∙ take-drop_middle header ciphertext tag header_len (length whole - tag_len - header_len)
            length-header (omega (arith, length-whole))

    tag_part : drop (length whole - tag_len) whole ≡ tag
    tag_part =
        ap (drop (length whole - tag_len)) (whole-header ∙ sym (append_assoc header ciphertext tag))
        ∙ drop_exact (header ++ ciphertext) tag (length whole - tag_len)
            (omega (arith, length-whole, length-header, length-append header ciphertext))

    long_enough : ltb (length whole) (header_len + tag_len) ≡ false
    long_enough = ground (arith, length-whole)

    magic_part : text_eq (subarray whole 0 (length magic)) magic ≡ true
    unfolding whole text_eq
    magic_part = refl

module _ (c : Crypto) where
  open c use {derive_key, seal, unseal}

  -- A bundle opens with the passphrase that it was encrypted with, into the bytes that went in.
  pub decrypt-encrypt :
      (salt iv plaintext : Bytes) (passphrase : Text)
      → length salt ≡ salt_len
      → length iv ≡ iv_len
      → decrypt_container c (encrypt_container c salt iv plaintext passphrase) passphrase
        ≡ ok plaintext
  unfolding decrypt_container encrypt_container whole
  decrypt-encrypt salt iv plaintext passphrase hs hi =
      let key = derive_key passphrase salt in
      let ciphertext = (seal key iv plaintext).0 in
      let tag = (seal key iv plaintext).1 in
      let ht = c.tag_length key iv plaintext in
      rw (
        long_enough salt iv ciphertext tag hs hi ht,
        magic_part salt iv ciphertext tag hs hi ht,
        salt_part salt iv ciphertext tag hs hi ht,
        iv_part salt iv ciphertext tag hs hi ht,
        tag_part salt iv ciphertext tag hs hi ht,
        ciphertext_part salt iv ciphertext tag hs hi ht,
        c.unseal-seal key iv plaintext,
      )
