-- ===== src/Bitso/Client/Tests.antt =====
-- The API client at concrete libraries.
use microservices_trading_bo.Common.{
  ℕ, ◌≡◌, ◌↔◌, refl, Text, codes, text_eq, true, false, List, [], ◌∷◌, ◌++◌, none, if◌then◌else◌,
  show_nat, insert, Outcome, ok, arith, inr,
}
use microservices_trading_bo.Ws.Channel.{done, receive, send}
use microservices_trading_bo.Bitso.Atoi.{pos}
use microservices_trading_bo.Bitso.Client.{
  Failure, Envelope, Request, Libraries, Client, new_client, set_api_key, set_api_secret,
  get_api_prefix, set_burst_rate, endpoint_url, new_request, sign, authorization,
}
use microservices_trading_bo.Bitso.Client.Signing.{holds, authenticates, new_request-authenticates}
use microservices_trading_bo.Bitso.Client.Api.{
  World, take_ticket, prepare, open_envelope, do_request,
}
use microservices_trading_bo.Bitso.Client.Limiter.{
  Event, passes, gives_back, asks, without_due, give_back, step, run, IsSpaced, IsQuiet, IsPaced,
}
use microservices_trading_bo.Bitso.Client.Spacing.{run-IsSpaced, asks-in_time}
use microservices_trading_bo.Bitso.Client.Results.{do_request-ok_iff}

-- A URL is its text; the exchange knows no orders.
abbrev plain : Libraries
plain = record {
  Url = Text;
  parse = λ s. ok s;
  encode = λ params. elim params [ [] ↦ [] | p ∷ ps ↦ p.0 ++ b'=' ∷ p.1 ];
  with_query = λ u q. if text_eq q [] then u else u ++ b'?' ∷ q;
  url_string = λ u. u;
  request_uri = λ u. u;
  admits = λ method uri. true;
  mac = λ secret message. secret ++ message;
  serve = λ req. ok (if text_eq req.method (codes "DELETE") then codes "no" else req.uri);
  decode = λ buf. ok (
      if text_eq buf (codes "no")
      then record { success = false; code = codes "304"; message = codes "unknown" }
      else record { success = true; code = []; message = [] });
}

abbrev keyed : Client
keyed = record {
  api_prefix = codes "x/";
  key = codes "k";
  secret = codes "s";
  version = codes "v3";
  tickets = record { buffer = tt ∷ []; capacity = 1; closed = false };
  burst_rate = pos 5;
}

abbrev signed : Request
signed = record {
  method = codes "GET";
  uri = codes "x/v3/fees";
  headers = (authorization, codes "Bitso k:7:s7GETx/v3/fees") ∷ [];
  body = [];
}

new_request-authenticates_example :
    (authenticates plain (codes "k") (codes "s") signed ≡ true)
    × (signed.method ≡ codes "GET")
    × (signed.uri ≡ codes "x/v3/fees")
    × (signed.body ≡ [])
unfolding new_request sign text_eq holds insert show_nat
new_request-authenticates_example =
    new_request-authenticates plain keyed 7 (codes "GET") (codes "x/v3/fees") none signed refl refl
      refl

-- The second call began at 9, when it made its nonce, and has its turn at 13.
abbrev waiting_long : List Event
waiting_long =
    asks 7 (codes "GET") (codes "/fees") [] none
    ∷ passes 5
    ∷ gives_back
    ∷ passes 1
    ∷ asks 9 (codes "GET") (codes "/fees") [] none
    ∷ []

abbrev signed_at : ℕ → Text → Request
signed_at n nonce = record signed {
  headers =
      (authorization, codes "Bitso k:" ++ nonce ++ codes ":s" ++ nonce ++ codes "GETx/v3/fees")
      ∷ [];
}

abbrev sent_both : World
sent_both = record {
  client = record keyed { tickets = record { buffer = []; capacity = 1; closed = false } };
  now = 13;
  began = 9;
  refills = 18 ∷ [];
  log =
      record { at = 13; request = signed_at 9 (codes "9") }
      ∷ record { at = 7; request = signed }
      ∷ [];
}

run-IsSpaced_example : IsSpaced 5 sent_both.log
unfolding run step do_request prepare endpoint_url new_request sign get_api_prefix text_eq insert
    show_nat take_ticket receive give_back without_due send new_client set_burst_rate
run-IsSpaced_example = run-IsSpaced plain keyed 5 7 waiting_long sent_both (omega arith) refl

abbrev out_of_tickets : World
out_of_tickets = record {
  client = record keyed { tickets = record { buffer = []; capacity = 1; closed = false } };
  now = 7;
  began = 7;
  refills = 12 ∷ [];
  log = record { at = 7; request = signed } ∷ [];
}

out_of_tickets-IsPaced : IsPaced 5 out_of_tickets
unfolding IsSpaced IsQuiet
out_of_tickets-IsPaced = record {
  limited = refl;
  spaced = tt;
  open_tickets = refl;
  capacity = refl;
  ticket = inr (12, refl, refl, omega arith, omega arith);
}

asks-in_time_example :
    (w' : World) × (run plain out_of_tickets
        (passes 5 ∷ gives_back ∷ asks 8 (codes "GET") (codes "/fees") [] none ∷ [])
      ≡ done w')
    × (w'.log
        ≡ record { at = 12; request = signed_at 8 (codes "8") }
          ∷ record { at = 7; request = signed }
          ∷ [])
unfolding prepare endpoint_url new_request sign get_api_prefix text_eq insert show_nat
asks-in_time_example =
    asks-in_time plain 5 out_of_tickets 8 (codes "GET") (codes "/fees") [] none
      (signed_at 8 (codes "8")) (omega arith) out_of_tickets-IsPaced refl refl

abbrev idle : World
idle = record {
  client = record keyed { burst_rate = pos 0 };
  now = 7;
  began = 7;
  refills = [];
  log = [];
}

abbrev after_fees : World
after_fees = record idle { log = record { at = 7; request = signed } ∷ [] }

abbrev fees_read : Outcome Failure Text
fees_read = ok (codes "x/v3/fees")

do_request-ok_iff_example : (fees_read ≡ ok (codes "x/v3/fees")) ↔ (
    (req : Request) × (buf : Text) × (env : Envelope) × (prepare plain idle
        (codes "GET")
        (codes "/fees")
        []
        none
      ≡ ok req)
    × (plain.serve req ≡ ok buf)
    × (plain.decode buf ≡ ok env)
    × (env.success ≡ true)
    × (ok buf ≡ fees_read))
unfolding do_request prepare endpoint_url new_request sign get_api_prefix text_eq insert show_nat
    take_ticket open_envelope
do_request-ok_iff_example =
    do_request-ok_iff plain idle after_fees (codes "GET") (codes "/fees") [] none (λ buf. ok buf)
      fees_read refl (codes "x/v3/fees")

fresh_client :
    set_api_secret (set_api_key new_client (codes "k")) (codes "s")
    ≡ record new_client { key = codes "k"; secret = codes "s" }
unfolding set_api_secret set_api_key
fresh_client = refl
