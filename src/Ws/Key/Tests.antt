-- ===== src/Ws/Key/Tests.antt =====
-- Runs of the user key, and its theorem at concrete inputs.
use microservices_trading_bo.Common.{codes, ◌≡◌, refl, show_nat}
use microservices_trading_bo.Ws.Key.{get_user_key}

key_of_user : get_user_key 101 (codes "ana") ≡ codes "101_ana"
unfolding get_user_key show_nat
key_of_user = refl
