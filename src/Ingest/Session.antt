-- ===== src/Ingest/Session.antt =====
-- services/horizon/internal/ingest/session.go and ingestion.go: the rows of one ledger. Rows wait in
-- the insert builders, those of trades in the database transaction; all of them become visible with
-- its commit, so they are one list.
pub mod Run
pub mod Ids
pub mod Atomic
pub mod Complete
pub mod Again
use dfc_api.Base.{
  ℕ, suc, ◌+◌, ◌%◌, ◌^◌, ◌*◌, Bool, true, false, not, ◌&&◌, List, [], ◌∷◌, ◌++◌, Option, none, some,
  String, if◌then◌else◌, map, get_elem?, length,
}
use dfc_api.Base.Int.{ℤ, pos, int32, int64, wrap, ◌*ℤ◌}
use dfc_api.Xdr.{AccountId, LedgerEntry, LedgerKey, LedgerEntryChange, OfferEntry, Price}
use dfc_api.Xdr.Operation.{Operation, OperationBody, OperationResult, ClaimOfferAtom, Transaction}
use dfc_api.Meta.{operations_metas}
use dfc_api.Ingest.Outcome.{Outcome, Err, database, done, failed, panicked, ◌>>=◌}
use dfc_api.Ingest.Cursor.{
  Cursor, LedgerBundle, ledger_id, transaction_id, operation_id, order_of, before_and_after,
  operation_source_account, successful_transaction_count, failed_transaction_count,
  successful_ledger_operation_count,
}
use dfc_api.Ingest.Effects.{Details, Effect, Loaded, is_zero}
use dfc_api.Ingest.Effects.Body.{ingest_effects}
use dfc_api.Ingest.Details.{operation_details}
use dfc_api.Ingest.Participants.{for_operation, for_transaction}

-- The rows of the history tables, each with the id that `Clear` selects it by first.
pub data Row : Type 0 where
  ledger_row : ℤ → ℤ → ℕ → ℕ → ℕ → Row  -- sequence; successful, failed transactions, operations
  transaction_row : ℤ → Transaction → Row
  transaction_participant : ℤ → AccountId → Row
  operation_row : ℤ → ℤ → ℤ → AccountId → OperationBody → Details → Row  -- transaction, order
  operation_participant : ℤ → AccountId → Row
  effect_row : ℤ → ℕ → Effect → Row
  trade_row : ℤ → ℤ → AccountId → Option OfferEntry → ClaimOfferAtom → Price → ℤ → Row  -- order, closed at

unfoldable pub row_id : Row → ℤ
row_id (ledger_row id s t f o) = id
row_id (transaction_row id t) = id
row_id (transaction_participant id a) = id
row_id (operation_row id tx o source b d) = id
row_id (operation_participant id a) = id
row_id (effect_row id o e) = id
row_id (trade_row id o a b c p t) = id

-- The calls of the databases that can fail, by the ledger they are made for.
pub data Call : Type 0 where
  begin close report : Call
  clear write commit restart : ℤ → Call
  insert_trade : ℤ → ℕ → Call  -- of an operation

-- The core database and the calls that fail.
pub record World : Type 0 where
  pub load : ℤ → Outcome LedgerBundle
  pub refuses : Call → Bool

-- The configuration of a session.
pub record Config : Type 0 where
  pub ingest_failed_transactions : Bool
  pub clear_existing : Bool
  pub reports : Bool  -- a core URL is set, and the cursor's update is not skipped

-- The effects with their orders, from 1.
unfoldable pub effect_rows : ℤ → ℕ → List Effect → List Row
effect_rows id added [] = []
effect_rows id added (e ∷ es) = effect_row id (suc added) e ∷ effect_rows id (suc added) es

-- The claims of an operation, with the offer that it left.
unfoldable pub claims_of :
    OperationBody → OperationResult → Outcome (List ClaimOfferAtom × Option OfferEntry)
claims_of (OperationBody.path_payment op) (OperationResult.path_payment offers last) =
    done (offers, none)
claims_of (OperationBody.path_payment op) result = panicked
claims_of (OperationBody.manage_offer op) (OperationResult.manage_offer claims offer) =
    done (claims, offer)
claims_of (OperationBody.manage_offer op) result = panicked
claims_of (OperationBody.create_passive_offer op) (OperationResult.manage_offer claims offer) =
    done (claims, offer)
claims_of (OperationBody.create_passive_offer op)
      (OperationResult.create_passive_offer claims offer) =
    done (claims, offer)
claims_of (OperationBody.create_passive_offer op) result = panicked
claims_of body result = done ([], none)

-- The price of the offer that was sold; the panic where there was none.
unfoldable pub offer_price : Option LedgerEntry → Outcome Price
offer_price (some (LedgerEntry.offer o)) = done o.price
offer_price e = panicked

-- What every trade of one operation shares.
pub record Trading : Type 0 where
  pub id : ℤ
  pub buyer : AccountId
  pub buy_offer : Option OfferEntry
  pub closed_at : ℤ

unfoldable pub accept : Bool → Outcome (Unit {0})
accept true = failed database
accept false = done tt

-- The trades of the claims from index `i` on.
unfoldable pub ingest_trades :
    (Call → Bool)
    → (LedgerKey → Outcome Loaded)
    → Trading
    → ℕ
    → List ClaimOfferAtom
    → Outcome (List Row)
unfolding offer_price is_zero accept
ingest_trades refuses load t i [] = done []
ingest_trades refuses load t i (c ∷ cs) =
    let rest = ingest_trades refuses load t (suc i) cs in
    if is_zero c.amount_bought && is_zero c.amount_sold then rest else do
      entries ← load (LedgerKey.offer c.seller_id c.offer_id)
      price ← offer_price entries.0
      _ ← accept (refuses (insert_trade t.id i))
      rows ← rest
      done (trade_row t.id (int32 (i % 2 ^ 32)) t.buyer t.buy_offer c price t.closed_at ∷ rows)

-- Whether the current operation has changes; the panic where its meta is missing.
unfoldable pub touched : Option (List LedgerEntryChange) → Outcome Bool
touched none = panicked
touched (some []) = done false
touched (some (c ∷ cs)) = done true

-- A missing result counts as one that no operation reads.
unfoldable pub operation_result : Option OperationResult → OperationResult
operation_result none = OperationResult.other
operation_result (some r) = r

-- The effects and the trades of an operation of a successful transaction.
unfoldable pub operation_novelty :
    (Call → Bool)
    → LedgerBundle
    → ℤ
    → ℕ
    → Transaction
    → AccountId
    → OperationBody
    → OperationResult
    → Outcome (List Row)
unfolding touched effect_rows claims_of ingest_trades
operation_novelty refuses bundle id op t source body result = do
  let changed = touched (get_elem? (operations_metas t.result_meta) op)
  effects ← ingest_effects (before_and_after t op) changed source body result
  claims ← claims_of body result
  trades ←
      ingest_trades refuses (before_and_after t op)
        (record {
          id = id;
          buyer = source;
          buy_offer = claims.1;
          closed_at = int64 (wrap (2 ^ 64) (bundle.close_time *ℤ pos 1000));
        })
        0 claims.0
  done (effect_rows id 0 effects ++ trades)

unfoldable pub ingest_operation :
    (Call → Bool) → Cursor → LedgerBundle → ℕ → ℕ → Transaction → Operation → Outcome (List Row)
unfolding operation_novelty operation_result
ingest_operation refuses c bundle tx op t o = do
  id ← operation_id c tx op
  parent ← transaction_id c tx
  let source = operation_source_account t o
  let result = operation_result (get_elem? t.results op)
  details ← operation_details t.successful source o.body result
  novelty ←
      (if t.successful
        then operation_novelty refuses bundle id op t source o.body result
        else done [])
  done (
      operation_row id parent (order_of op) source o.body details
      ∷ (map (operation_participant id) (for_operation t.source_account o) ++ novelty))

-- The operations from index `op` on.
unfoldable pub ingest_operations :
    (Call → Bool)
    → Cursor
    → LedgerBundle
    → ℕ
    → ℕ
    → Transaction
    → List Operation
    → Outcome (List Row)
unfolding ingest_operation
ingest_operations refuses c bundle tx op t [] = done []
ingest_operations refuses c bundle tx op t (o ∷ os) = do
  here ← ingest_operation refuses c bundle tx op t o
  rest ← ingest_operations refuses c bundle tx (suc op) t os
  done (here ++ rest)

unfoldable pub ingest_transaction :
    Config → (Call → Bool) → Cursor → LedgerBundle → ℕ → Transaction → Outcome (List Row)
unfolding ingest_operations
ingest_transaction config refuses c bundle tx t =
    if not config.ingest_failed_transactions && not t.successful then done [] else do
      id ← transaction_id c tx
      operations ← ingest_operations refuses c bundle tx 0 t t.operations
      done (
          transaction_row id t
          ∷ (operations ++ map (transaction_participant id) (for_transaction t)))

-- The transactions from index `tx` on.
unfoldable pub ingest_transactions :
    Config → (Call → Bool) → Cursor → LedgerBundle → ℕ → List Transaction → Outcome (List Row)
unfolding ingest_transaction
ingest_transactions config refuses c bundle tx [] = done []
ingest_transactions config refuses c bundle tx (t ∷ ts) = do
  here ← ingest_transaction config refuses c bundle tx t
  rest ← ingest_transactions config refuses c bundle (suc tx) ts
  done (here ++ rest)

unfoldable pub ingest_ledger : Config → (Call → Bool) → Cursor → LedgerBundle → Outcome (List Row)
unfolding ingest_transactions
ingest_ledger config refuses c bundle = do
  id ← ledger_id c
  rows ← ingest_transactions config refuses c bundle 0 bundle.transactions
  done (
      ledger_row id bundle.sequence (successful_transaction_count bundle.transactions)
        (failed_transaction_count bundle.transactions)
        (successful_ledger_operation_count bundle.transactions)
      ∷ rows)
