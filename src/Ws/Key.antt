-- ===== src/Ws/Key.antt =====
-- data_server/ws/websocket/client_manager.go, `GetUserKey`: the key of a user in the manager's map.
mod Tests
use microservices_trading_bo.Common.{
  ℕ, ◌≤◌, ◌≡◌, refl, sym, ap, ◌∙◌, Text, [], ◌∷◌, ◌++◌, true, arith, value_from, all_digits,
  show_nat, value_from-show_nat, all_digits-show_nat,
}

-- `fmt.Sprintf("%d_%s", appId, userId)`
unfoldable pub get_user_key : ℕ → Text → Text
get_user_key app_id user_id = show_nat app_id ++ b'_' ∷ user_id

digits_inj :
    (s t u v : Text)
    → all_digits s ≡ true
    → all_digits t ≡ true
    → s ++ b'_' ∷ u ≡ t ++ b'_' ∷ v
    → (s ≡ t) × (u ≡ v)
unfolding all_digits
digits_inj [] [] u v h k e = ground arith
digits_inj [] (d ∷ t) u v h k e = ground arith
digits_inj (c ∷ s) [] u v h k e = ground arith
digits_inj (c ∷ s) (d ∷ t) u v h k e = ground (arith, digits_inj s t u v)

-- Two users have the same key only if both the platform and the user id are the same.
pub get_user_key_injective :
    (a b : ℕ) (u v : Text) → get_user_key a u ≡ get_user_key b v → (a ≡ b) × (u ≡ v)
unfolding get_user_key
get_user_key_injective a b u v e =
    let (same, rest) =
      digits_inj (show_nat a) (show_nat b) u v (all_digits-show_nat a) (all_digits-show_nat b) e in
    (sym (value_from-show_nat a) ∙ ap (value_from 0) same ∙ value_from-show_nat b, rest)
