-- ===== src/Ws/Code.antt =====
-- data_server/ws/common/error_code.go: the codes of the replies.
use microservices_trading_bo.Common.{ℕ}

abbrev pub ok : ℕ
ok = 200

abbrev pub not_logged_in : ℕ
not_logged_in = 1000

abbrev pub parameter_illegal : ℕ
parameter_illegal = 1001

abbrev pub unauthorized_user_id : ℕ
unauthorized_user_id = 1002

abbrev pub unauthorized : ℕ
unauthorized = 1003

abbrev pub server_error : ℕ
server_error = 1004

abbrev pub not_data : ℕ
not_data = 1005

abbrev pub model_add_error : ℕ
model_add_error = 1006

abbrev pub model_delete_error : ℕ
model_delete_error = 1007

abbrev pub model_store_error : ℕ
model_store_error = 1008

abbrev pub operation_failure : ℕ
operation_failure = 1009

abbrev pub routing_not_exist : ℕ
routing_not_exist = 1010

abbrev pub duplicate_email : ℕ
duplicate_email = 1062
