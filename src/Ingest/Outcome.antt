-- ===== src/Ingest/Outcome.antt =====
-- The steps of an ingestion: a session's error ends the later steps, and a panic ends the session.

pub data Err : Type 0 where
  no_cursor : Err
  meta_not_found : Err
  database : Err
  gap_detected : Err
  report_failed : Err

pub data Outcome {ℓ} (A : Type ℓ) : Type ℓ where
  done : A → Outcome A
  failed : Err → Outcome A
  panicked : Outcome A

infixl 5 ◌>>=◌
abbrev pub ◌>>=◌ {ℓ κ} : {A : Type ℓ} {B : Type κ} → Outcome A → (A → Outcome B) → Outcome B
panicked >>= step = panicked
failed why >>= step = failed why
done value >>= step = step value

infixl 5 ◌>>◌
abbrev pub ◌>>◌ {ℓ} : {B : Type ℓ} → Outcome (Unit {0}) → Outcome B → Outcome B
check >> rest = check >>= λ _. rest
