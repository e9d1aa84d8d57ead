-- ===== src/Crc16/Steps.antt =====
-- A step of the checksum loses nothing: neither the value before it nor the byte.
use Prim.Native.Nat.{bit_xor}
use dfc_api.Base.{
  ℕ, zero, suc, ◌*◌, ◌/◌, ◌%◌, ◌^◌, ◌<◌, ◌≡◌, refl, sym, ap, ◌∙◌, Bool, true, ◌&&◌, List, [], ◌∷◌,
  get_elem?, ltb, ltb→lt, ◌==◌, ==_iff, ◌⊎◌, inl, inr, arith,
}
use dfc_api.Base.Xor.{bit_xor_comm, bit_xor_cancel, bit_xor-lt, bit_xor-low}
use dfc_api.Crc16.{crc16tab, entry, step}

-- The index of the entry with a given lower byte.
unfoldable indices : List ℕ
indices =
    0 ∷ 35 ∷ 70 ∷ 101 ∷ 140 ∷ 175 ∷ 202 ∷ 233 ∷ 8 ∷ 43 ∷ 78 ∷ 109 ∷ 132 ∷ 167 ∷ 194 ∷ 225 ∷ 17 ∷ 50
    ∷ 87 ∷ 116 ∷ 157 ∷ 190 ∷ 219 ∷ 248 ∷ 25 ∷ 58 ∷ 95 ∷ 124 ∷ 149 ∷ 182 ∷ 211 ∷ 240 ∷ 34 ∷ 1 ∷ 100
    ∷ 71 ∷ 174 ∷ 141 ∷ 232 ∷ 203 ∷ 42 ∷ 9 ∷ 108 ∷ 79 ∷ 166 ∷ 133 ∷ 224 ∷ 195 ∷ 51 ∷ 16 ∷ 117 ∷ 86
    ∷ 191 ∷ 156 ∷ 249 ∷ 218 ∷ 59 ∷ 24 ∷ 125 ∷ 94 ∷ 183 ∷ 148 ∷ 241 ∷ 210 ∷ 68 ∷ 103 ∷ 2 ∷ 33 ∷ 200
    ∷ 235 ∷ 142 ∷ 173 ∷ 76 ∷ 111 ∷ 10 ∷ 41 ∷ 192 ∷ 227 ∷ 134 ∷ 165 ∷ 85 ∷ 118 ∷ 19 ∷ 48 ∷ 217 ∷ 250
    ∷ 159 ∷ 188 ∷ 93 ∷ 126 ∷ 27 ∷ 56 ∷ 209 ∷ 242 ∷ 151 ∷ 180 ∷ 102 ∷ 69 ∷ 32 ∷ 3 ∷ 234 ∷ 201 ∷ 172
    ∷ 143 ∷ 110 ∷ 77 ∷ 40 ∷ 11 ∷ 226 ∷ 193 ∷ 164 ∷ 135 ∷ 119 ∷ 84 ∷ 49 ∷ 18 ∷ 251 ∷ 216 ∷ 189 ∷ 158
    ∷ 127 ∷ 92 ∷ 57 ∷ 26 ∷ 243 ∷ 208 ∷ 181 ∷ 150 ∷ 136 ∷ 171 ∷ 206 ∷ 237 ∷ 4 ∷ 39 ∷ 66 ∷ 97 ∷ 128
    ∷ 163 ∷ 198 ∷ 229 ∷ 12 ∷ 47 ∷ 74 ∷ 105 ∷ 153 ∷ 186 ∷ 223 ∷ 252 ∷ 21 ∷ 54 ∷ 83 ∷ 112 ∷ 145 ∷ 178
    ∷ 215 ∷ 244 ∷ 29 ∷ 62 ∷ 91 ∷ 120 ∷ 170 ∷ 137 ∷ 236 ∷ 207 ∷ 38 ∷ 5 ∷ 96 ∷ 67 ∷ 162 ∷ 129 ∷ 228
    ∷ 199 ∷ 46 ∷ 13 ∷ 104 ∷ 75 ∷ 187 ∷ 152 ∷ 253 ∷ 222 ∷ 55 ∷ 20 ∷ 113 ∷ 82 ∷ 179 ∷ 144 ∷ 245 ∷ 214
    ∷ 63 ∷ 28 ∷ 121 ∷ 90 ∷ 204 ∷ 239 ∷ 138 ∷ 169 ∷ 64 ∷ 99 ∷ 6 ∷ 37 ∷ 196 ∷ 231 ∷ 130 ∷ 161 ∷ 72
    ∷ 107 ∷ 14 ∷ 45 ∷ 221 ∷ 254 ∷ 155 ∷ 184 ∷ 81 ∷ 114 ∷ 23 ∷ 52 ∷ 213 ∷ 246 ∷ 147 ∷ 176 ∷ 89 ∷ 122
    ∷ 31 ∷ 60 ∷ 238 ∷ 205 ∷ 168 ∷ 139 ∷ 98 ∷ 65 ∷ 36 ∷ 7 ∷ 230 ∷ 197 ∷ 160 ∷ 131 ∷ 106 ∷ 73 ∷ 44
    ∷ 15 ∷ 255 ∷ 220 ∷ 185 ∷ 154 ∷ 115 ∷ 80 ∷ 53 ∷ 22 ∷ 247 ∷ 212 ∷ 177 ∷ 146 ∷ 123 ∷ 88 ∷ 61 ∷ 30
    ∷ []

unfoldable entry_at : ℕ → ℕ
unfolding entry crc16tab
entry_at i = entry (get_elem? crc16tab i)

-- The index found again by the lower byte of an entry.
unfoldable index_of : ℕ → ℕ
unfolding entry indices
index_of e = entry (get_elem? indices (e % 2 ^ 8))

-- Whether a test holds below a number.
unfoldable all_below : (ℕ → Bool) → ℕ → Bool
all_below test zero = true
all_below test (suc n) = test n && all_below test n

and_lem : (p q : Bool) → (p && q) ≡ true → (p ≡ true) × (q ≡ true)
and_lem p q h = (ground arith, ground arith)

last_lem : (i n : ℕ) → i < suc n → (i < n) ⊎ (i ≡ n)
last_lem i n h = ground arith

all_below_lem : (test : ℕ → Bool) (n i : ℕ) → all_below test n ≡ true → i < n → test i ≡ true
unfolding all_below
all_below_lem test zero i e h = absurd (omega arith)
all_below_lem test (suc n) i e h =
    let (here, below) = and_lem (test n) (all_below test n) e in
    elim (last_lem i n h) [ inl k ↦ all_below_lem test n i below k | inr k ↦ ap test k ∙ here ]

unfoldable found : ℕ → Bool
unfolding entry_at index_of
found i = index_of (entry_at i) == i

unfoldable small : ℕ → Bool
unfolding entry_at
small i = ltb (entry_at i) (2 ^ 16)

all_found : all_below found 256 ≡ true
unfolding all_below found
all_found = refl

all_small : all_below small 256 ≡ true
unfolding all_below small
all_small = refl

found_lem : (i : ℕ) → i < 2 ^ 8 → index_of (entry_at i) ≡ i
unfolding found
found_lem i h = (==_iff (index_of (entry_at i)) i).0 (all_below_lem found 256 i all_found h)

entry_at-lt : (i : ℕ) → i < 2 ^ 8 → entry_at i < 2 ^ 16
unfolding small
entry_at-lt i h = ltb→lt (entry_at i) (2 ^ 16) (all_below_lem small 256 i all_small h)

entry_at-low : (i j : ℕ) → i < 2 ^ 8 → j < 2 ^ 8 → entry_at i % 2 ^ 8 ≡ entry_at j % 2 ^ 8 → i ≡ j
unfolding index_of
entry_at-low i j h k e =
    sym (found_lem i h) ∙ ap (λ low. entry (get_elem? indices low)) e ∙ found_lem j k

unfoldable index : ℕ → ℕ → ℕ
index crc b = bit_xor (crc / 2 ^ 8) b % 2 ^ 8

step_lem : (crc b : ℕ) → step crc b ≡ bit_xor (crc * 2 ^ 8 % 2 ^ 16) (entry_at (index crc b))
unfolding step entry_at index
step_lem crc b = refl

index_lem : (crc b : ℕ) → crc < 2 ^ 16 → b < 2 ^ 8 → index crc b ≡ bit_xor (crc / 2 ^ 8) b
unfolding index
index_lem crc b h k = omega (arith, bit_xor-lt 8 (crc / 2 ^ 8) b (omega arith) k)

index-lt : (crc b : ℕ) → index crc b < 2 ^ 8
unfolding index
index-lt crc b = omega arith

pub step-lt : (crc b : ℕ) → step crc b < 2 ^ 16
step-lt crc b = omega (
  arith,
  step_lem crc b,
  bit_xor-lt 16 (crc * 2 ^ 8 % 2 ^ 16) (entry_at (index crc b)) (omega arith)
      (entry_at-lt (index crc b) (index-lt crc b)),
)

step-low : (crc b : ℕ) → step crc b % 2 ^ 8 ≡ entry_at (index crc b) % 2 ^ 8
step-low crc b =
    let shift : crc * 2 ^ 8 % 2 ^ 16 ≡ crc % 2 ^ 8 * 2 ^ 8 = omega arith in
    ap (λ n. n % 2 ^ 8) (step_lem crc b ∙ ap (λ high. bit_xor high (entry_at (index crc b))) shift)
    ∙ bit_xor-low (crc % 2 ^ 8) (entry_at (index crc b))

-- Equal values after a step come from the same entry.
step-index : (c d a b : ℕ) → step c a ≡ step d b → index c a ≡ index d b
step-index c d a b e =
    entry_at-low (index c a) (index d b) (index-lt c a) (index-lt d b)
      (sym (step-low c a) ∙ ap (λ n. n % 2 ^ 8) e ∙ step-low d b)

-- The byte is not lost.
pub step-byte :
    (crc a b : ℕ) → crc < 2 ^ 16 → a < 2 ^ 8 → b < 2 ^ 8 → step crc a ≡ step crc b → a ≡ b
step-byte crc a b h k l e =
    bit_xor_cancel (crc / 2 ^ 8) a b
      (sym (index_lem crc a h k) ∙ step-index crc crc a b e ∙ index_lem crc b h l)

-- The value before is not lost.
pub step-value : (c d b : ℕ) → c < 2 ^ 16 → d < 2 ^ 16 → b < 2 ^ 8 → step c b ≡ step d b → c ≡ d
step-value c d b h k l e =
    let same = step-index c d b b e in
    let high : c / 2 ^ 8 ≡ d / 2 ^ 8 = bit_xor_cancel b (c / 2 ^ 8) (d / 2 ^ 8) (
      bit_xor_comm b (c / 2 ^ 8)
      ∙ sym (index_lem c b h l)
      ∙ same
      ∙ index_lem d b k l
      ∙ bit_xor_comm (d / 2 ^ 8) b) in
    let low : c * 2 ^ 8 % 2 ^ 16 ≡ d * 2 ^ 8 % 2 ^ 16 =
      bit_xor_cancel (entry_at (index c b)) (c * 2 ^ 8 % 2 ^ 16) (d * 2 ^ 8 % 2 ^ 16) (
        bit_xor_comm (entry_at (index c b)) (c * 2 ^ 8 % 2 ^ 16)
        ∙ sym (step_lem c b)
        ∙ e
        ∙ step_lem d b
        ∙ ap (λ i. bit_xor (d * 2 ^ 8 % 2 ^ 16) (entry_at i)) (sym same)
        ∙ bit_xor_comm (d * 2 ^ 8 % 2 ^ 16) (entry_at (index c b))) in
    omega arith
