-- ===== src/Bitso/Answers/Ledger.antt =====
-- The decoding of the structs of data_server/bitso/ledger.go, funding.go and withdrawal.go.
use microservices_trading_bo.Common.{Text, codes, List, [], ◌∷◌}
use microservices_trading_bo.Bitso.Time.{zero_time}
use microservices_trading_bo.Bitso.Value.{Setter, on_field, set_text, set_list, set_map, set_struct}
use microservices_trading_bo.Bitso.Payload.{Funding, Withdrawal, BalanceUpdate, Transaction}
use microservices_trading_bo.Bitso.Answers.{
  Reading, Dynamic, currency_setter, operation_setter, time_setter,
}

-- A Go map from strings to `interface{}`.
abbrev pub set_details : (dyn : Dynamic) → Setter (List (Text × dyn.Any))
set_details dyn = set_map dyn.nothing dyn.set_any

abbrev pub no_balance_update : BalanceUpdate
no_balance_update = record { currency = []; amount = [] }

abbrev pub balance_update_setters : Reading → List (Text × Setter BalanceUpdate)
balance_update_setters r =
    (
      codes "currency",
      on_field (λ s. s.currency) (λ s x. record s { currency = x }) (currency_setter r),
    )
    ∷ (codes "amount", on_field (λ s. s.amount) (λ s x. record s { amount = x }) set_text)
    ∷ []

unfoldable pub set_balance_update : Reading → Setter BalanceUpdate
unfolding set_struct
set_balance_update r = set_struct (balance_update_setters r)

abbrev pub no_funding : (dyn : Dynamic) → Funding dyn.Any
no_funding dyn = record {
  fid = [];
  currency = [];
  method = [];
  amount = [];
  status = [];
  created_at = zero_time;
  details = [];
}

abbrev pub funding_setters : Reading → (dyn : Dynamic) → List (Text × Setter (Funding dyn.Any))
funding_setters r dyn =
    (codes "fid", on_field (λ s. s.fid) (λ s x. record s { fid = x }) set_text)
    ∷ (
      codes "currency",
      on_field (λ s. s.currency) (λ s x. record s { currency = x }) (currency_setter r),
    )
    ∷ (codes "method", on_field (λ s. s.method) (λ s x. record s { method = x }) set_text)
    ∷ (codes "amount", on_field (λ s. s.amount) (λ s x. record s { amount = x }) set_text)
    ∷ (codes "status", on_field (λ s. s.status) (λ s x. record s { status = x }) set_text)
    ∷ (
      codes "created_at",
      on_field (λ s. s.created_at) (λ s x. record s { created_at = x }) time_setter,
    )
    ∷ (
      codes "details",
      on_field (λ s. s.details) (λ s x. record s { details = x }) (set_details dyn),
    )
    ∷ []

unfoldable pub set_funding : Reading → (dyn : Dynamic) → Setter (Funding dyn.Any)
unfolding set_struct
set_funding r dyn = set_struct (funding_setters r dyn)

abbrev pub no_withdrawal : (dyn : Dynamic) → Withdrawal dyn.Any
no_withdrawal dyn = record {
  wid = [];
  status = [];
  created_at = zero_time;
  currency = [];
  method = [];
  amount = [];
  details = [];
}

abbrev pub withdrawal_setters :
    Reading → (dyn : Dynamic) → List (Text × Setter (Withdrawal dyn.Any))
withdrawal_setters r dyn =
    (codes "wid", on_field (λ s. s.wid) (λ s x. record s { wid = x }) set_text)
    ∷ (codes "status", on_field (λ s. s.status) (λ s x. record s { status = x }) set_text)
    ∷ (
      codes "created_at",
      on_field (λ s. s.created_at) (λ s x. record s { created_at = x }) time_setter,
    )
    ∷ (
      codes "currency",
      on_field (λ s. s.currency) (λ s x. record s { currency = x }) (currency_setter r),
    )
    ∷ (codes "method", on_field (λ s. s.method) (λ s x. record s { method = x }) set_text)
    ∷ (codes "amount", on_field (λ s. s.amount) (λ s x. record s { amount = x }) set_text)
    ∷ (
      codes "details",
      on_field (λ s. s.details) (λ s x. record s { details = x }) (set_details dyn),
    )
    ∷ []

unfoldable pub set_withdrawal : Reading → (dyn : Dynamic) → Setter (Withdrawal dyn.Any)
unfolding set_struct
set_withdrawal r dyn = set_struct (withdrawal_setters r dyn)

abbrev pub no_transaction : (dyn : Dynamic) → Transaction dyn.Any
no_transaction dyn = record {
  eid = [];
  operation = 0;
  created_at = zero_time;
  balance_updates = [];
  details = [];
}

abbrev pub transaction_setters :
    Reading → (dyn : Dynamic) → List (Text × Setter (Transaction dyn.Any))
transaction_setters r dyn =
    (codes "eid", on_field (λ s. s.eid) (λ s x. record s { eid = x }) set_text)
    ∷ (
      codes "operation",
      on_field (λ s. s.operation) (λ s x. record s { operation = x }) (operation_setter r),
    )
    ∷ (
      codes "created_at",
      on_field (λ s. s.created_at) (λ s x. record s { created_at = x }) time_setter,
    )
    ∷ (
      codes "balance_updates",
      on_field (λ s. s.balance_updates) (λ s x. record s { balance_updates = x })
          (set_list no_balance_update (set_balance_update r)),
    )
    ∷ (
      codes "details",
      on_field (λ s. s.details) (λ s x. record s { details = x }) (set_details dyn),
    )
    ∷ []

unfoldable pub set_transaction : Reading → (dyn : Dynamic) → Setter (Transaction dyn.Any)
unfolding set_struct
set_transaction r dyn = set_struct (transaction_setters r dyn)
