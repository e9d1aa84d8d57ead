-- ===== src/SimplePath/Result.antt =====
-- Results of the path finder. `panic` stands for a Go panic (here: a division by zero).
use mathlib.Core.Path.{◌≡◌, refl}

pub data Err : Type 0 where
  not_enough : Err
  overflow : Err
  out_of_int64 : Err
  database : Err
  no_source_assets : Err
  invalid_max_length : Err
  panic : Err

pub data Result {ℓ} (A : Type ℓ) : Type ℓ where
  ok : A → Result A
  err : Err → Result A

infixl 5 ◌>>=◌
abbrev pub ◌>>=◌ {ℓ κ} : {A : Type ℓ} {B : Type κ} → Result A → (A → Result B) → Result B
err why >>= next = err why
ok value >>= next = next value

infixl 5 ◌>>◌
abbrev pub ◌>>◌ {ℓ} : {B : Type ℓ} → Result (Unit {0}) → Result B → Result B
guard >> next = guard >>= λ _. next

-- A chain that succeeds has a first step that does.
module _ {ℓ κ} {A : Type ℓ} {B : Type κ} (next : A → Result B) {end : B} where
  pub >>=-eq-ok :
      (first : Result A)
      → (first >>= next) ≡ ok end
      → (value : A) × (first ≡ ok value) × (next value ≡ ok end)
  >>=-eq-ok (err why) done = cc
  >>=-eq-ok (ok value) done = (value, refl, done)
