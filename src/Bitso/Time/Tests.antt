-- ===== src/Bitso/Time/Tests.antt =====
-- Times, read and printed.
use microservices_trading_bo.Common.{arith, ◌≡◌, refl, codes, ok, err}
use microservices_trading_bo.Bitso.Json.{str, null, time_format}
use microservices_trading_bo.Bitso.Time.{Time, unmarshal_time, time_string}
use microservices_trading_bo.Bitso.Time.Digits.{west}
use microservices_trading_bo.Bitso.Time.Reading.{unmarshal_time-again}

abbrev leap_day : Time
leap_day = record {
  year = 2024;
  month = 2;
  day = 29;
  hour = 7;
  minute = 5;
  second = 59;
  nanosecond = 120000000;
  zone = west 360;
}

-- The fraction is read in the second format, which does not name it.
leap_day-unmarshal_time : unmarshal_time (str (codes "2024-02-29T7:05:59.12-06:00")) ≡ ok leap_day
unfolding unmarshal_time
leap_day-unmarshal_time = refl

leap_day-time_string : time_string leap_day ≡ codes "2024-02-29T07:05:59-0600"
unfolding time_string
leap_day-time_string = refl

no_leap_day : unmarshal_time (str (codes "2023-02-29T07:05:59-0600")) ≡ err time_format
unfolding unmarshal_time
no_leap_day = refl

no_time : unmarshal_time null ≡ err time_format
unfolding unmarshal_time
no_time = refl

unmarshal_time-again_example :
    unmarshal_time (str (time_string leap_day)) ≡ ok (record leap_day { nanosecond = 0 })
unmarshal_time-again_example =
    unmarshal_time-again (str (codes "2024-02-29T7:05:59.12-06:00")) leap_day
      leap_day-unmarshal_time (λ e. ground (arith, e)) (λ e. ground (arith, e))
