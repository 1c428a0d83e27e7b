-- ===== src/Bitso/Answers/Sound/Ledger.antt =====
-- What holds of the structs of data_server/bitso/ledger.go, funding.go and withdrawal.go that were decoded.
use microservices_trading_bo.Common.{arith, All}
use microservices_trading_bo.Bitso.Payload.{Funding, Withdrawal, BalanceUpdate, Transaction}
use microservices_trading_bo.Bitso.Time.Reading.{IsStamp, zero_time-IsStamp}
use microservices_trading_bo.Bitso.Value.{set_text}
use microservices_trading_bo.Bitso.Value.Laws.{
  Keeps, Anything, Keeps-set_text, Keeps-set_map, Keeps-on_field, Keeps-free, Keeps-set_struct,
  Keeps-set_list,
}
use microservices_trading_bo.Bitso.Answers.{Reading, Dynamic}
use microservices_trading_bo.Bitso.Answers.Sound.{
  IsReading, IsCurrency, AtMost, IsStamp-Keeps, IsCurrency-Keeps, operation-Keeps, unset-IsCurrency,
}
use microservices_trading_bo.Bitso.Answers.Ledger.{
  no_balance_update, set_balance_update, balance_update_setters, no_funding, set_funding,
  funding_setters, no_withdrawal, set_withdrawal, withdrawal_setters, no_transaction,
  set_transaction, transaction_setters, set_details,
}

abbrev pub IsBalanceUpdate : Reading → BalanceUpdate → Type 0
IsBalanceUpdate r t = IsCurrency r t.currency

pub no_balance_update-IsBalanceUpdate : (r : Reading) → IsBalanceUpdate r no_balance_update
no_balance_update-IsBalanceUpdate r = unset-IsCurrency r

pub IsBalanceUpdate-Keeps :
    (r : Reading) → IsReading r → Keeps (IsBalanceUpdate r) (set_balance_update r)
unfolding set_balance_update
IsBalanceUpdate-Keeps r s = Keeps-set_struct (IsBalanceUpdate r) (balance_update_setters r) (
  Keeps-on_field (IsBalanceUpdate r) (IsCurrency r) _ _ _ (λ t p. p) (λ t a p q. q)
      (IsCurrency-Keeps r s),
  (
    Keeps-free (IsBalanceUpdate r) (λ t. t.amount) (λ t x. record t { amount = x }) set_text
        (λ t a p. p) Keeps-set_text,
    tt,
  ),
)

abbrev pub IsFunding : Reading → (dyn : Dynamic) → Funding dyn.Any → Type 0
IsFunding r dyn t = IsCurrency r t.currency × IsStamp t.created_at

pub no_funding-IsFunding : (r : Reading) (dyn : Dynamic) → IsFunding r dyn (no_funding dyn)
no_funding-IsFunding r dyn = (unset-IsCurrency r, zero_time-IsStamp)

pub IsFunding-Keeps :
    (r : Reading) (dyn : Dynamic)
    → IsReading r
    → Keeps Anything dyn.set_any
    → Keeps (IsFunding r dyn) (set_funding r dyn)
unfolding set_funding
IsFunding-Keeps r dyn s calm = Keeps-set_struct (IsFunding r dyn) (funding_setters r dyn) (
  Keeps-free (IsFunding r dyn) (λ t. t.fid) (λ t x. record t { fid = x }) set_text (λ t a p. p)
      Keeps-set_text,
  (
    Keeps-on_field (IsFunding r dyn) (IsCurrency r) _ _ _ (λ t p. p.0) (λ t a p q. (q, p.1))
        (IsCurrency-Keeps r s),
    (
      Keeps-free (IsFunding r dyn) (λ t. t.method) (λ t x. record t { method = x }) set_text
          (λ t a p. p) Keeps-set_text,
      (
        Keeps-free (IsFunding r dyn) (λ t. t.amount) (λ t x. record t { amount = x }) set_text
            (λ t a p. p) Keeps-set_text,
        (
          Keeps-free (IsFunding r dyn) (λ t. t.status) (λ t x. record t { status = x }) set_text
              (λ t a p. p) Keeps-set_text,
          (
            Keeps-on_field (IsFunding r dyn) IsStamp _ _ _ (λ t p. p.1) (λ t a p q. (p.0, q))
                IsStamp-Keeps,
            (
              Keeps-free (IsFunding r dyn) (λ t. t.details) (λ t x. record t { details = x })
                  (set_details dyn) (λ t a p. p) (Keeps-set_map dyn.nothing dyn.set_any calm),
              tt,
            ),
          ),
        ),
      ),
    ),
  ),
)

abbrev pub IsWithdrawal : Reading → (dyn : Dynamic) → Withdrawal dyn.Any → Type 0
IsWithdrawal r dyn t = IsStamp t.created_at × IsCurrency r t.currency

pub no_withdrawal-IsWithdrawal :
    (r : Reading) (dyn : Dynamic) → IsWithdrawal r dyn (no_withdrawal dyn)
no_withdrawal-IsWithdrawal r dyn = (zero_time-IsStamp, unset-IsCurrency r)

pub IsWithdrawal-Keeps :
    (r : Reading) (dyn : Dynamic)
    → IsReading r
    → Keeps Anything dyn.set_any
    → Keeps (IsWithdrawal r dyn) (set_withdrawal r dyn)
unfolding set_withdrawal
IsWithdrawal-Keeps r dyn s calm = Keeps-set_struct (IsWithdrawal r dyn) (withdrawal_setters r dyn) (
  Keeps-free (IsWithdrawal r dyn) (λ t. t.wid) (λ t x. record t { wid = x }) set_text (λ t a p. p)
      Keeps-set_text,
  (
    Keeps-free (IsWithdrawal r dyn) (λ t. t.status) (λ t x. record t { status = x }) set_text
        (λ t a p. p) Keeps-set_text,
    (
      Keeps-on_field (IsWithdrawal r dyn) IsStamp _ _ _ (λ t p. p.0) (λ t a p q. (q, p.1))
          IsStamp-Keeps,
      (
        Keeps-on_field (IsWithdrawal r dyn) (IsCurrency r) _ _ _ (λ t p. p.1) (λ t a p q. (p.0, q))
            (IsCurrency-Keeps r s),
        (
          Keeps-free (IsWithdrawal r dyn) (λ t. t.method) (λ t x. record t { method = x }) set_text
              (λ t a p. p) Keeps-set_text,
          (
            Keeps-free (IsWithdrawal r dyn) (λ t. t.amount) (λ t x. record t { amount = x })
                set_text (λ t a p. p) Keeps-set_text,
            (
              Keeps-free (IsWithdrawal r dyn) (λ t. t.details) (λ t x. record t { details = x })
                  (set_details dyn) (λ t a p. p) (Keeps-set_map dyn.nothing dyn.set_any calm),
              tt,
            ),
          ),
        ),
      ),
    ),
  ),
)

abbrev pub IsTransaction : Reading → (dyn : Dynamic) → Transaction dyn.Any → Type 0
IsTransaction r dyn t =
    AtMost 4 t.operation × IsStamp t.created_at × All (IsBalanceUpdate r) t.balance_updates

pub no_transaction-IsTransaction :
    (r : Reading) (dyn : Dynamic) → IsTransaction r dyn (no_transaction dyn)
no_transaction-IsTransaction r dyn = (omega arith, zero_time-IsStamp, tt)

pub IsTransaction-Keeps :
    (r : Reading) (dyn : Dynamic)
    → IsReading r
    → Keeps Anything dyn.set_any
    → Keeps (IsTransaction r dyn) (set_transaction r dyn)
unfolding set_transaction
IsTransaction-Keeps r dyn s calm =
    Keeps-set_struct (IsTransaction r dyn) (transaction_setters r dyn) (
      Keeps-free (IsTransaction r dyn) (λ t. t.eid) (λ t x. record t { eid = x }) set_text
          (λ t a p. p) Keeps-set_text,
      (
        Keeps-on_field (IsTransaction r dyn) (AtMost 4) _ _ _ (λ t p. p.0)
            (λ t a p q. (q, p.1, p.2)) (operation-Keeps r s),
        (
          Keeps-on_field (IsTransaction r dyn) IsStamp _ _ _ (λ t p. p.1) (λ t a p q. (p.0, q, p.2))
              IsStamp-Keeps,
          (
            Keeps-on_field (IsTransaction r dyn) (All (IsBalanceUpdate r)) _ _ _ (λ t p. p.2)
                (λ t a p q. (p.0, p.1, q))
                (Keeps-set_list (IsBalanceUpdate r) no_balance_update (set_balance_update r)
                  (no_balance_update-IsBalanceUpdate r) (IsBalanceUpdate-Keeps r s)),
            (
              Keeps-free (IsTransaction r dyn) (λ t. t.details) (λ t x. record t { details = x })
                  (set_details dyn) (λ t a p. p) (Keeps-set_map dyn.nothing dyn.set_any calm),
              tt,
            ),
          ),
        ),
      ),
    )
