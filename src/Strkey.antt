-- ===== src/Strkey.antt =====
-- strkey/main.go: addresses, seeds and signer keys as text. The base32 encoding is a parameter.
pub mod Laws
use dfc_api.Base.{
  ℕ, ◌-◌, Bool, true, false, List, [], ◌∷◌, ◌++◌, Option, none, some, length, get_elem?, take, drop,
  ltb, ◌==◌, if◌then◌else◌,
}
use dfc_api.Crc16.{checksum, validate}

-- The base32 encoding of the standard library.
pub record Base32 {ℓ} (Text : Type ℓ) : Type ℓ where
  pub encode_to_string : List ℕ → Text
  pub decode_string : Text → Option (List ℕ)

pub data Err : Type 0 where
  invalid_version_byte invalid_checksum base32_failed : Err
  too_short : ℕ → Err

pub data Outcome {ℓ} (A : Type ℓ) : Type ℓ where
  failed : Err → Outcome A
  done : A → Outcome A

abbrev pub version_byte_account_id : ℕ
version_byte_account_id = 24

abbrev pub version_byte_seed : ℕ
version_byte_seed = 144

abbrev pub version_byte_hash_tx : ℕ
version_byte_hash_tx = 152

abbrev pub version_byte_hash_x : ℕ
version_byte_hash_x = 184

unfoldable pub check_valid_version_byte : ℕ → Option Err
check_valid_version_byte version =
    if version == version_byte_account_id
    then none
    else if version == version_byte_seed
    then none
    else if version == version_byte_hash_tx
    then none
    else if version == version_byte_hash_x
    then none
    else some invalid_version_byte

unfoldable pub decode_string {ℓ} : {Text : Type ℓ} → Base32 Text → Text → Outcome (List ℕ)
decode_string base32 src = elim (base32.decode_string src) [
  | none ↦ failed base32_failed
  | some raw ↦ if ltb (length raw) 3 then failed (too_short (length raw)) else done raw
]

unfoldable pub first : List ℕ → ℕ
first [] = 0
first (b ∷ bytes) = b

-- The components of the raw bytes, of which there are at least three.
unfoldable pub open_raw : ℕ → List ℕ → Outcome (List ℕ)
unfolding first
open_raw expected raw =
    let vp = take (length raw - 2) raw in
    if first raw == expected
    then if validate vp (drop (length raw - 2) raw)
      then done (drop 1 vp)
      else failed invalid_checksum
    else failed invalid_version_byte

unfoldable pub decode {ℓ} : {Text : Type ℓ} → Base32 Text → ℕ → Text → Outcome (List ℕ)
decode base32 expected src = elim (check_valid_version_byte expected) [
  | some e ↦ failed e
  | none ↦ elim (decode_string base32 src) [
    | failed e ↦ failed e
    | done raw ↦ open_raw expected raw
  ]
]

unfoldable pub encode {ℓ} : {Text : Type ℓ} → Base32 Text → ℕ → List ℕ → Outcome Text
encode base32 version src = elim (check_valid_version_byte version) [
  | some e ↦ failed e
  | none ↦ let raw = version ∷ src in done (base32.encode_to_string (raw ++ checksum raw))
]

unfoldable pub version_of {ℓ} : {Text : Type ℓ} → Base32 Text → Text → Outcome ℕ
unfolding decode_string first
version_of base32 src = elim (decode_string base32 src) [
  | failed e ↦ failed e
  | done raw ↦ done (first raw)
]
