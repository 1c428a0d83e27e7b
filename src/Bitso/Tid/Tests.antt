-- ===== src/Bitso/Tid/Tests.antt =====
-- Runs of the reader of transaction ids, and its theorems at concrete inputs.
use microservices_trading_bo.Common.{◌≡◌, refl, codes, ok, err}
use microservices_trading_bo.Bitso.Json.{null, number_range}
use microservices_trading_bo.Bitso.Tid.{unmarshal_tid, parse_uint}

largest : parse_uint (codes "18446744073709551615") ≡ ok 18446744073709551615
unfolding parse_uint
largest = refl

too_large : parse_uint (codes "18446744073709551616") ≡ err number_range
unfolding parse_uint
too_large = refl

null_tid : unmarshal_tid null ≡ ok 0
unfolding unmarshal_tid
null_tid = refl
