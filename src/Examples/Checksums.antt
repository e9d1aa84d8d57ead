-- ===== src/Examples/Checksums.antt =====
-- An account's key with the bytes themselves in place of their base32 encoding.
use dfc_api.Base.{ℕ, ◌++◌, ◌≡◌, refl, List, [], ◌∷◌, some, if◌then◌else◌, ◌==◌, arith}
use dfc_api.Crc16.{checksum}
use dfc_api.Strkey.{
  Base32, invalid_version_byte, invalid_checksum, failed, done, decode, encode, version_of,
  check_valid_version_byte,
}
use dfc_api.Strkey.Laws.{RoundTrips, decode-encode, decode-Detects}

abbrev plain : Base32 (List ℕ)
plain = record { encode_to_string = λ raw. raw; decode_string = λ text. some text }

plain-RoundTrips : RoundTrips plain
unfolding RoundTrips
plain-RoundTrips raw h = refl

decode-encode_example :
    (text : List ℕ) × (encode plain 24 (54 ∷ 62 ∷ []) ≡ done text)
    × (decode plain 144 text
        ≡ (if 24 == 144 then done (54 ∷ 62 ∷ []) else failed invalid_version_byte))
    × (version_of plain text ≡ done 24)
unfolding check_valid_version_byte
decode-encode_example =
    decode-encode plain plain-RoundTrips 24 144 (54 ∷ 62 ∷ []) refl refl
      (omega arith, (omega arith, tt))

decode-Detects_example :
    decode plain 24
      ((24 ∷ (54 ∷ []) ++ (63 ∷ 170 ∷ [])) ++ checksum (24 ∷ (54 ∷ []) ++ (62 ∷ 170 ∷ [])))
    ≡ failed invalid_checksum
unfolding check_valid_version_byte
decode-Detects_example =
    decode-Detects plain plain-RoundTrips 24 (54 ∷ []) (170 ∷ []) 62 63 refl
      (omega arith, (omega arith, (omega arith, tt)))
      (omega arith, (omega arith, (omega arith, tt))) (λ e. absurd (omega arith))
