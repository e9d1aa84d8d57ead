-- ===== src/Strkey/Laws.antt =====
-- What is decoded from an encoded key, and from one with a wrong byte.
use dfc_api.Base.{
  ℕ, ◌-◌, ◌≡◌, ◌≢◌, refl, sym, ap, ◌∙◌, List, [], ◌∷◌, ◌++◌, none, some, length, length-append,
  take, drop, ltb, ◌==◌, ==_iff, if◌then◌else◌, All, All-append, arith,
}
use dfc_api.Crc16.{checksum, validate}
use dfc_api.Crc16.Detects.{IsByte, checksum-Detects, checksum-IsByte, validate_own, validate_other}
use dfc_api.Strkey.{
  Base32, invalid_version_byte, invalid_checksum, too_short, failed, done, check_valid_version_byte,
  decode_string, first, open_raw, decode, encode, version_of,
}

module _ {ℓ} {A : Type ℓ} where
  take-front : (xs ys : List A) → take (length xs) (xs ++ ys) ≡ xs
  take-front [] ys = refl
  take-front (x ∷ xs) ys = ap (λ l. x ∷ l) (take-front xs ys)

  drop-front : (xs ys : List A) → drop (length xs) (xs ++ ys) ≡ ys
  drop-front [] ys = refl
  drop-front (x ∷ xs) ys = drop-front xs ys

All-back : (xs ys : List ℕ) → All IsByte (xs ++ ys) → All IsByte ys
All-back [] ys h = h
All-back (x ∷ xs) ys h = All-back xs ys h.1

length-framed : (raw bytes : List ℕ) → length (raw ++ checksum bytes) - 2 ≡ length raw
unfolding checksum
length-framed raw bytes = omega (arith, length-append raw (checksum bytes))

long_enough :
    (version : ℕ) (payload bytes : List ℕ)
    → (if ltb (length ((version ∷ payload) ++ checksum bytes)) 3
        then failed (too_short (length ((version ∷ payload) ++ checksum bytes)))
        else done ((version ∷ payload) ++ checksum bytes))
      ≡ done ((version ∷ payload) ++ checksum bytes)
unfolding checksum
long_enough version payload bytes = ground (arith, length-append payload (checksum bytes))

-- The components of a version byte, a payload and the checksum of some bytes.
open_raw-framed :
    (expected version : ℕ) (payload bytes : List ℕ)
    → open_raw expected ((version ∷ payload) ++ checksum bytes) ≡ (
        if version == expected
        then if validate (version ∷ payload) (checksum bytes)
          then done payload
          else failed invalid_checksum
        else failed invalid_version_byte)
unfolding open_raw first
open_raw-framed expected version payload bytes =
    rw
      (
        length-framed (version ∷ payload) bytes,
        take-front payload (checksum bytes),
        drop-front payload (checksum bytes),
      )
      refl

valid-IsByte : (version : ℕ) → check_valid_version_byte version ≡ none → IsByte version
unfolding check_valid_version_byte
valid-IsByte version h = ground arith

-- What is relied on of the encoding: bytes are decoded as they were encoded.
unfoldable pub RoundTrips {ℓ} : {Text : Type ℓ} → Base32 Text → Type 0
RoundTrips base32 =
    (raw : List ℕ) → All IsByte raw → base32.decode_string (base32.encode_to_string raw) ≡ some raw

module _ {ℓ} {Text : Type ℓ} (base32 : Base32 Text) (round_trips : RoundTrips base32) where
  decode_string-framed :
      (version : ℕ) (payload bytes : List ℕ)
      → All IsByte (version ∷ payload)
      → decode_string base32 (base32.encode_to_string ((version ∷ payload) ++ checksum bytes))
        ≡ done ((version ∷ payload) ++ checksum bytes)
  unfolding RoundTrips decode_string
  decode_string-framed version payload bytes k =
      let whole =
        All-append IsByte (version ∷ payload) (checksum bytes) k (checksum-IsByte bytes) in
      rw (decode_string, round_trips ((version ∷ payload) ++ checksum bytes) whole)
        (long_enough version payload bytes)

  decode-framed :
      (expected version : ℕ) (payload bytes : List ℕ)
      → check_valid_version_byte expected ≡ none
      → All IsByte (version ∷ payload)
      → decode base32 expected (base32.encode_to_string ((version ∷ payload) ++ checksum bytes)) ≡ (
          if version == expected
          then if validate (version ∷ payload) (checksum bytes)
            then done payload
            else failed invalid_checksum
          else failed invalid_version_byte)
  unfolding decode
  decode-framed expected version payload bytes h k =
      rw (decode, h, decode_string-framed version payload bytes k)
        (open_raw-framed expected version payload bytes)

  -- With an encoding that round trips bytes, a payload of bytes that is encoded with a valid version
  -- byte is decoded again with that version byte and refused with another valid one, and the version
  -- of its text is that byte.
  pub decode-encode :
      (version expected : ℕ) (payload : List ℕ)
      → check_valid_version_byte version ≡ none
      → check_valid_version_byte expected ≡ none
      → All IsByte payload
      → (text : Text) × (encode base32 version payload ≡ done text)
        × (decode base32 expected text
            ≡ (if version == expected then done payload else failed invalid_version_byte))
        × (version_of base32 text ≡ done version)
  unfolding encode version_of first
  decode-encode version expected payload h k l =
      let raw = version ∷ payload in
      (
        base32.encode_to_string (raw ++ checksum raw),
        rw (encode, h) refl,
        decode-framed expected version payload raw k (valid-IsByte version h, l)
            ∙ rw (validate_own raw) refl,
        rw (version_of, decode_string-framed version payload raw (valid-IsByte version h, l)) refl,
      )

  -- With an encoding that round trips bytes, a key of which one byte of the payload is replaced by another, with the version byte and the
  -- checksum kept, is refused for its checksum.
  pub decode-Detects :
      (version : ℕ) (front back : List ℕ) (a b : ℕ)
      → check_valid_version_byte version ≡ none
      → All IsByte (front ++ (a ∷ back))
      → All IsByte (front ++ (b ∷ back))
      → a ≢ b
      → decode base32 version (
          base32.encode_to_string
            ((version ∷ front ++ (b ∷ back)) ++ checksum (version ∷ front ++ (a ∷ back))))
        ≡ failed invalid_checksum
  decode-Detects version front back a b h k l differs =
      let sent = version ∷ front ++ (a ∷ back) in
      let (left, right) = All-back front (a ∷ back) k in
      let (other, _) = All-back front (b ∷ back) l in
      decode-framed version version (front ++ (b ∷ back)) sent h (valid-IsByte version h, l)
      ∙ rw
          (
            (==_iff version version).1 refl,
            validate_other (version ∷ front ++ (b ∷ back)) (checksum sent) (
                checksum-Detects (version ∷ front) back b a other left right
                  (λ e. differs (sym e))),
          )
          refl
