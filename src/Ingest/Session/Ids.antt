-- ===== src/Ingest/Session/Ids.antt =====
-- The rows of a ledger carry ids of its own range.
use dfc_api.Base.{
  ℕ, suc, ◌+◌, ◌-◌, ◌*◌, ◌^◌, ◌<◌, ◌≡◌, refl, sym, Bool, true, false, not, ◌&&◌, List, [], ◌∷◌,
  Option, none, some, if◌then◌else◌, map, length, get_elem?, All, All-append, arith,
}
use dfc_api.Base.Int.{ℤ, pos, ◌≤ℤ◌, ◌<ℤ◌}
use dfc_api.Toid.{new, to_int64}
use dfc_api.Toid.Order.{position, to_int64-position, to_int64-Fits}
use dfc_api.Xdr.{AccountId, LedgerKey}
use dfc_api.Xdr.Operation.{Operation, OperationBody, OperationResult, ClaimOfferAtom, Transaction}
use dfc_api.Meta.{operations_metas}
use dfc_api.Ingest.Outcome.{Outcome, done, failed, panicked, ◌>>=◌}
use dfc_api.Ingest.Cursor.{
  Cursor, LedgerBundle, identified, order_of, ledger_id, transaction_id, operation_id,
  before_and_after,
}
use dfc_api.Ingest.Effects.{Effect, Loaded, is_zero}
use dfc_api.Ingest.Effects.Body.{ingest_effects}
use dfc_api.Ingest.Details.{operation_details}
use dfc_api.Ingest.Participants.{for_operation, for_transaction}
use dfc_api.Ingest.Session.{
  Row, row_id, transaction_participant, operation_participant, Call, insert_trade, Config,
  effect_rows, Trading, accept, ingest_trades, offer_price, operation_novelty, ingest_operation,
  ingest_operations, ingest_transaction, ingest_transactions, ingest_ledger, touched, claims_of,
}

-- A predicate of the value of an outcome, where it has one.
abbrev pub Gives {ℓ κ} : {A : Type ℓ} → (A → Type κ) → Outcome A → Type κ
Gives P (done a) = P a
Gives P (failed why) = Unit
Gives P panicked = Unit

bind-Gives {ℓ κ μ ν} :
    {A : Type ℓ} {B : Type κ} (P : A → Type μ) (Q : B → Type ν) (o : Outcome A) (f : A → Outcome B)
    → Gives P o
    → ((a : A) → P a → Gives Q (f a))
    → Gives Q (o >>= f)
bind-Gives P Q (done a) f p next = next a p
bind-Gives P Q (failed why) f p next = tt
bind-Gives P Q panicked f p next = tt

any-Gives {ℓ} : {A : Type ℓ} (o : Outcome A) → Gives (λ a. Unit {0}) o
any-Gives (done a) = tt
any-Gives (failed why) = tt
any-Gives panicked = tt

-- A step of a chain whose value does not matter.
step-Gives {ℓ κ ν} :
    {A : Type ℓ} {B : Type κ} (Q : B → Type ν) (o : Outcome A) (f : A → Outcome B)
    → ((a : A) → Gives Q (f a))
    → Gives Q (o >>= f)
step-Gives Q o f next = bind-Gives (λ a. Unit {0}) Q o f (any-Gives o) (λ a u. next a)

if-Gives {ℓ κ} :
    {A : Type ℓ} (P : A → Type κ) (b : Bool) (x y : Outcome A)
    → Gives P x
    → Gives P y
    → Gives P (if b then x else y)
if-Gives P true x y p q = p
if-Gives P false x y p q = q

identified-Gives {κ} :
    (P : ℤ → Type κ) (o : Option ℤ) → ((id : ℤ) → o ≡ some id → P id) → Gives P (identified o)
unfolding identified
identified-Gives P none p = tt
identified-Gives P (some id) p = p id refl

abbrev pub Within : ℕ → ℤ → Type 0
Within l id = (pos (l * 2 ^ 32) ≤ℤ id) × (id <ℤ pos (suc l * 2 ^ 32))

abbrev pub InLedger : ℕ → Row → Type 0
InLedger l r = Within l (row_id r)

order_of-small : (i : ℕ) → i < 2 ^ 31 - 1 → order_of i ≡ pos (suc i)
unfolding order_of
order_of-small i h = ground arith

position-Within :
    (l t o : ℕ) (id : ℤ)
    → l < 2 ^ 31
    → to_int64 (new (pos l) (pos t) (pos o)) ≡ some id
    → Within l id
position-Within l t o id h e =
    let f = to_int64-Fits l t o h e in
    let same : id ≡ pos (position l t o) = cc (to_int64-position l t o f) in rw same (omega arith)

module _ (l : ℕ) (small : l < 2 ^ 31) (c : Cursor) (here : c.lg ≡ pos l) where
  ledger_id-Within : Gives (Within l) (ledger_id c)
  unfolding ledger_id
  ledger_id-Within =
      identified-Gives (Within l) (to_int64 (new c.lg (pos 0) (pos 0)))
        (λ id e. position-Within l 0 0 id small (rw (sym here) e))

  transaction_id-Within : (tx : ℕ) → tx < 2 ^ 31 - 1 → Gives (Within l) (transaction_id c tx)
  unfolding transaction_id
  transaction_id-Within tx h =
      identified-Gives (Within l) (to_int64 (new c.lg (order_of tx) (pos 0)))
        (λ id e. position-Within l (suc tx) 0 id small (rw (sym here, sym (order_of-small tx h)) e))

  operation_id-Within :
      (tx op : ℕ) → tx < 2 ^ 31 - 1 → op < 2 ^ 31 - 1 → Gives (Within l) (operation_id c tx op)
  unfolding operation_id
  operation_id-Within tx op h k =
      identified-Gives (Within l) (to_int64 (new c.lg (order_of tx) (order_of op))) (λ id e.
        position-Within l (suc tx) (suc op) id small
          (rw (sym here, sym (order_of-small tx h), sym (order_of-small op k)) e))

  map-InLedger {ℓ} :
      {A : Type ℓ} (f : A → Row) (id : ℤ) (xs : List A)
      → ((x : A) → row_id (f x) ≡ id)
      → Within l id
      → All (InLedger l) (map f xs)
  map-InLedger f id [] same w = tt
  map-InLedger f id (x ∷ xs) same w = (rw (same x) w, map-InLedger f id xs same w)

  effect_rows-InLedger :
      (id : ℤ) (n : ℕ) (es : List Effect) → Within l id → All (InLedger l) (effect_rows id n es)
  unfolding effect_rows row_id
  effect_rows-InLedger id n [] w = tt
  effect_rows-InLedger id n (e ∷ es) w = (w, effect_rows-InLedger id (suc n) es w)

  abbrev Rows : Outcome (List Row) → Type 0
  Rows o = Gives (All (InLedger l)) o

  module _ (refuses : Call → Bool) (bundle : LedgerBundle) where
    trades-InLedger :
        (load : LedgerKey → Outcome Loaded) (t : Trading) (i : ℕ) (cs : List ClaimOfferAtom)
        → Within l t.id
        → Rows (ingest_trades refuses load t i cs)
    unfolding ingest_trades row_id
    trades-InLedger load t i [] w = tt
    trades-InLedger load t i (c ∷ cs) w =
        let ih = trades-InLedger load t (suc i) cs w in
        if-Gives (All (InLedger l)) (is_zero c.amount_bought && is_zero c.amount_sold)
          (ingest_trades refuses load t (suc i) cs) _ ih
          (step-Gives (All (InLedger l)) (load (LedgerKey.offer c.seller_id c.offer_id)) _
            (λ entries. step-Gives (All (InLedger l)) (offer_price entries.0) _ (λ price.
              step-Gives (All (InLedger l)) (accept (refuses (insert_trade t.id i))) _ (λ u.
                bind-Gives (All (InLedger l)) (All (InLedger l))
                  (ingest_trades refuses load t (suc i) cs) _ ih (λ rows all. (w, all))))))

    novelty-InLedger :
        (id : ℤ) (op : ℕ) (t : Transaction) (source : AccountId) (body : OperationBody)
        (result : OperationResult)
        → Within l id
        → Rows (operation_novelty refuses bundle id op t source body result)
    unfolding operation_novelty
    novelty-InLedger id op t source body result w =
        step-Gives (All (InLedger l))
          (ingest_effects (before_and_after t op)
            (touched (get_elem? (operations_metas t.result_meta) op)) source body result)
          _
          (λ effects. step-Gives (All (InLedger l)) (claims_of body result) _ (λ claims.
            bind-Gives (All (InLedger l)) (All (InLedger l))
              (ingest_trades refuses (before_and_after t op) _ 0 claims.0) _
              (trades-InLedger (before_and_after t op) _ 0 claims.0 w)
              (λ trades all.
                All-append (InLedger l) (effect_rows id 0 effects) trades
                  (effect_rows-InLedger id 0 effects w) all)))

    operation-InLedger :
        (tx op : ℕ) (t : Transaction) (o : Operation)
        → tx < 2 ^ 31 - 1
        → op < 2 ^ 31 - 1
        → Rows (ingest_operation refuses c bundle tx op t o)
    unfolding ingest_operation row_id
    operation-InLedger tx op t o h k =
        bind-Gives (Within l) (All (InLedger l)) (operation_id c tx op) _
          (operation_id-Within tx op h k)
          (λ id w. step-Gives (All (InLedger l)) (transaction_id c tx) _ (λ parent.
            step-Gives (All (InLedger l)) (operation_details _ _ _ _) _ (λ details.
              bind-Gives (All (InLedger l)) (All (InLedger l)) _ _
                (if-Gives (All (InLedger l)) t.successful _ _ (novelty-InLedger id op t _ _ _ w) tt)
                (λ novelty all. (
                  w,
                  All-append (InLedger l)
                      (map (operation_participant id) (for_operation t.source_account o)) novelty
                      (map-InLedger (operation_participant id) id (for_operation t.source_account o)
                        (λ x. refl) w)
                      all,
                )))))

    operations-InLedger :
        (tx op : ℕ) (t : Transaction) (os : List Operation)
        → tx < 2 ^ 31 - 1
        → op + length os < 2 ^ 31
        → Rows (ingest_operations refuses c bundle tx op t os)
    unfolding ingest_operations
    operations-InLedger tx op t [] h k = tt
    operations-InLedger tx op t (o ∷ os) h k =
        bind-Gives (All (InLedger l)) (All (InLedger l))
          (ingest_operation refuses c bundle tx op t o) _
          (operation-InLedger tx op t o h (omega arith))
          (λ first all.
            bind-Gives (All (InLedger l)) (All (InLedger l))
              (ingest_operations refuses c bundle tx (suc op) t os) _
              (operations-InLedger tx (suc op) t os h (omega arith))
              (λ rest others. All-append (InLedger l) first rest all others))

    transaction-InLedger :
        (config : Config) (tx : ℕ) (t : Transaction)
        → tx < 2 ^ 31 - 1
        → length t.operations < 2 ^ 31
        → Rows (ingest_transaction config refuses c bundle tx t)
    unfolding ingest_transaction row_id
    transaction-InLedger config tx t h k =
        if-Gives (All (InLedger l)) (not config.ingest_failed_transactions && not t.successful) _ _
          tt
          (bind-Gives (Within l) (All (InLedger l)) (transaction_id c tx) _
            (transaction_id-Within tx h)
            (λ id w.
              bind-Gives (All (InLedger l)) (All (InLedger l))
                (ingest_operations refuses c bundle tx 0 t t.operations) _
                (operations-InLedger tx 0 t t.operations h (omega arith))
                (λ rows all. (
                  w,
                  All-append (InLedger l) rows
                      (map (transaction_participant id) (for_transaction t)) all
                      (map-InLedger (transaction_participant id) id (for_transaction t) (λ x. refl)
                        w),
                ))))

    transactions-InLedger :
        (config : Config) (tx : ℕ) (ts : List Transaction)
        → tx + length ts < 2 ^ 31
        → All (λ t. length t.operations < 2 ^ 31) ts
        → Rows (ingest_transactions config refuses c bundle tx ts)
    unfolding ingest_transactions
    transactions-InLedger config tx [] h k = tt
    transactions-InLedger config tx (t ∷ ts) h k =
        bind-Gives (All (InLedger l)) (All (InLedger l))
          (ingest_transaction config refuses c bundle tx t) _
          (transaction-InLedger config tx t (omega arith) k.0)
          (λ first all.
            bind-Gives (All (InLedger l)) (All (InLedger l))
              (ingest_transactions config refuses c bundle (suc tx) ts) _
              (transactions-InLedger config (suc tx) ts (omega arith) k.1)
              (λ rest others. All-append (InLedger l) first rest all others))

    -- Every row that a ledger of fewer than `2 ^ 31` transactions, of fewer than `2 ^ 31` operations
    -- each, is turned into has an id of that ledger.
    pub ledger-InLedger :
        (config : Config)
        → length bundle.transactions < 2 ^ 31
        → All (λ t. length t.operations < 2 ^ 31) bundle.transactions
        → Rows (ingest_ledger config refuses c bundle)
    unfolding ingest_ledger row_id
    ledger-InLedger config h k =
        bind-Gives (Within l) (All (InLedger l)) (ledger_id c) _ ledger_id-Within (λ id w.
          bind-Gives (All (InLedger l)) (All (InLedger l))
            (ingest_transactions config refuses c bundle 0 bundle.transactions) _
            (transactions-InLedger config 0 bundle.transactions (omega arith) k)
            (λ rows all. (w, all)))
