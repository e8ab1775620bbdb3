-- ===== src/Base58/Address.antt =====
-- src/common/base58.cpp: an address gives its tag and its data back.
use lira.Prelude.{
  ℕ, zero, suc, ◌-◌, ◌/◌, ◌%◌, ◌^◌, ◌<◌, ◌≡◌, refl, subst, ◌∙◌, true, false, leb, ◌==◌, inl, inr,
  Bool-cases, some, some-injective, none-ne-some, bind_inv, List, [], ◌∷◌, ◌++◌, length,
  length-append, length-take, take, take_append, drop_append, All, arith,
}
use lira.Varint.{write_loop, write_varint, read_varint, count}
use lira.Varint.Bytes.{inner_byte_lem}
use lira.Varint.RoundTrip.{read_varint-write_varint}
use lira.Base58.{decode, same_text, after_tag, encode_addr, decode_addr}
use lira.Base58.Digits.{InBase}
use lira.Base58.Text.{All-take, All-join, decode-encode}

same_text_refl : (xs : List ℕ) → same_text xs xs ≡ true
unfolding same_text
same_text_refl [] = refl
same_text_refl (x ∷ xs) = ground (arith, same_text_refl xs)

write_loop-InBase :
    (fuel v : ℕ) (bs : List ℕ) → write_loop fuel v ≡ some bs → All (InBase 256) bs × (0 < length bs)
unfolding write_loop
write_loop-InBase zero v bs done = absurd (none-ne-some bs done)
write_loop-InBase (suc fuel) v bs done = elim (Bool-cases (leb 0x80 v)) [
  | inr last ↦
      let bytes : (v % 256) ∷ [] ≡ bs = some-injective _ _ (rw last at done) in
      subst (λ (t : List ℕ). All (InBase 256) t × (0 < length t)) bytes
        ((omega arith, tt), omega arith)
  | inl more ↦
      let (rest, run, bytes) = bind_inv (write_loop fuel (v / 2 ^ 7)) _ (rw more at done) in
      let (all, pos) = write_loop-InBase fuel (v / 2 ^ 7) rest run in
      subst (λ (t : List ℕ). All (InBase 256) t × (0 < length t)) (some-injective _ _ bytes)
        ((omega (arith, inner_byte_lem v), all), omega arith)
]

head_bytes :
    (tag : ℕ) (bs : List ℕ) → write_varint 64 tag ≡ some bs → All (InBase 256) bs × (0 < length bs)
unfolding write_varint
head_bytes tag bs done = write_loop-InBase 65 tag bs done

tag_run :
    (head text : List ℕ) (tag : ℕ)
    → 0 < length head
    → read_varint 64 (head ++ text) ≡ (count (length head), tag, text)
    → after_tag (head ++ text) (read_varint 64 (head ++ text)) ≡ some (tag, text)
unfolding after_tag
tag_run head text tag pos read =
    let test : (length head == 0) ≡ false = ground arith in
    rw (read, test, drop_append (length head) head text refl) refl

module _ (cn_fast_hash : List ℕ → List ℕ) where
  decode_addr_run :
      (addr body check : List ℕ)
      → decode addr ≡ some (body ++ check)
      → length check ≡ 4
      → 0 < length body
      → take 4 (cn_fast_hash body) ≡ check
      → decode_addr cn_fast_hash addr ≡ after_tag body (read_varint 64 body)
  unfolding decode_addr
  decode_addr_run addr body check decoded four pos same =
      let n = length-append body check in
      let kept : length (body ++ check) - 4 ≡ length body = omega (arith, n) in
      let enough : leb (length (body ++ check)) 4 ≡ false = ground (arith, n) in
      rw
        (
          decoded,
          enough,
          kept,
          take_append (length body) body check refl,
          drop_append (length body) body check refl,
          same,
          same_text_refl check,
        )
        refl

  -- Where the hash of a string is 32 bytes: for every 64-bit tag and all bytes, `encode_addr` ends
  -- without a failed assertion, and `decode_addr` of the address gives the tag and the bytes.
  pub decode_addr-encode_addr :
      (hashed : (s : List ℕ) → length (cn_fast_hash s) ≡ 32)
      (bytes : (s : List ℕ) → All (InBase 256) (cn_fast_hash s)) (tag : ℕ) (text : List ℕ)
      → tag < 2 ^ 64
      → All (InBase 256) text
      → (addr : List ℕ) × (encode_addr cn_fast_hash tag text ≡ some addr)
        × (decode_addr cn_fast_hash addr ≡ some (tag, text))
  unfolding encode_addr
  decode_addr-encode_addr hashed bytes tag text fits all =
      let (head, wrote, read) = read_varint-write_varint 64 tag text (omega arith) fits in
      let (head_all, pos) = head_bytes tag head wrote in
      let body = head ++ text in
      let check = take 4 (cn_fast_hash body) in
      let four : length check ≡ 4 = omega (arith, length-take 4 (cn_fast_hash body), hashed body) in
      let (addr, encoded, decoded) = decode-encode (body ++ check) (
        All-join (InBase 256) body check (All-join (InBase 256) head text head_all all)
          (All-take (InBase 256) 4 (cn_fast_hash body) (bytes body))) in
      (
        addr,
        rw wrote encoded,
        decode_addr_run addr body check decoded four (omega (arith, length-append head text, pos))
              refl
            ∙ tag_run head text tag pos read,
      )
