-- ===== src/Ws/Process/Tests.antt =====
-- Requests that are answered, at a concrete encoding.
use microservices_trading_bo.Common.{
  ◌≡◌, subst, refl, Text, codes, text_eq, true, false, [], ◌∷◌, ◌++◌, none, some, lookup, insert,
  contains, if◌then◌else◌, arith,
}
use microservices_trading_bo.Ws.Channel.{done, panicked, close, make}
use microservices_trading_bo.Ws.Client.{Client, read_end, close_client}
use microservices_trading_bo.Ws.Code
use microservices_trading_bo.Common.Names.{name_of}
use microservices_trading_bo.Ws.ErrorCode.{code_map, get_error_message, response}
use microservices_trading_bo.Ws.Manager.{Manager, store, in_client}
use microservices_trading_bo.Ws.Manager.Events.{event_broadcast}
use microservices_trading_bo.Ws.Process.Ending.{KeepsRoom, process_data_ends}
use microservices_trading_bo.Ws.Process.Reading.{read-broadcast}
use microservices_trading_bo.Ws.Process.{
  dispose, read, Wire, Request, Response, answers, fails, Handler, Handlers, register, get_handlers,
  process_data,
}
use microservices_trading_bo.Ws.Process.Laws.{Sent, process_data_answers}

-- A message names its command, and a reply is written in one line.
abbrev plain : Wire
plain = record {
  Payload = Text;
  Reply = Text;
  nil_reply = codes "null";
  decode = λ message.
      if text_eq message []
      then none
      else some (record { seq = codes "s1"; cmd = message; fetch_id = []; payload = codes "p" });
  encode_payload = λ payload. some payload;
  encode_head = λ seq cmd fetch_id code msg reply. some (seq ++ cmd ++ msg ++ reply);
}

abbrev pong : Response Text
pong = record { code = Code.ok; msg = []; cmd = codes "ping"; payload = codes "pong"; voice = true }

abbrev handlers : Handlers Text
handlers =
    (codes "ping", λ m p seq cmd message. answers m pong)
    ∷ (codes "boom", λ m p seq cmd message. fails (record m { next = 7 }))
    ∷ []

abbrev asking : Client
asking = record {
  addr = codes "10.0.0.1:9";
  socket_closed = false;
  queue = make 2;
  app_id = 101;
  user_id = codes "ana";
  first_time = 3;
  heartbeat_time = 5;
  login_time = 5;
}

abbrev serving : Manager
serving = record {
  heap = λ _. asking;
  next = 1;
  clients = 0 ∷ [];
  users = [];
  register_queue = make 1000;
  login_queue = make 1000;
  unregister_queue = make 1000;
  broadcast_queue = make 1000;
}

abbrev asked : Text → Request Text
asked cmd = record { seq = codes "s1"; cmd = cmd; fetch_id = []; payload = codes "p" }

registered_both :
    register
      (codes "boom")
      (λ m p seq cmd message. fails (record m { next = 7 }))
      (register (codes "ping") (λ m p seq cmd message. answers m pong) [])
    ≡ handlers
unfolding register insert text_eq
registered_both = refl

process_data_answers_example :
    (m' : Manager) × (process_data plain handlers serving 0 (codes "ping") ≡ done m')
    × Sent serving 0 (codes "s1pingSuccesspong" ∷ codes "s1pingSuccesspong" ∷ []) m'
unfolding get_handlers lookup text_eq get_error_message name_of code_map
process_data_answers_example =
    process_data_answers plain handlers serving serving 0 (codes "ping") (codes "p")
      (codes "s1pingSuccesspong") (asked (codes "ping")) (λ m p seq cmd message. answers m pong)
      pong refl refl refl refl refl (λ o. omega arith)

abbrev pinging : Handler Text
pinging = λ m p seq cmd message. answers m pong

pinging-only :
    (key : Text) (value : Handler Text)
    → get_handlers key ((codes "ping", pinging) ∷ []) ≡ some value
    → pinging ≡ value
unfolding get_handlers lookup
pinging-only key value e = ground arith

process_data_ends_example :
    (m' : Manager) × (process_data plain ((codes "ping", pinging) ∷ []) serving 0 (codes "ping")
      ≡ done m')
process_data_ends_example =
    process_data_ends plain ((codes "ping", pinging) ∷ []) serving 0 (codes "ping")
      (λ o. omega arith)
      (λ key value e seq request_data.
        subst (λ v. KeepsRoom 0 (v serving 0 seq key request_data)) (pinging-only key value e)
          (λ o. omega arith))

abbrev after_reading : Manager
after_reading =
    store (record serving { next = 7 }) 0
      (record asking { queue = record { buffer = []; capacity = 2; closed = true } })

read-broadcast_example :
    ((after_reading.heap 0).queue.closed ≡ true)
    × (event_broadcast after_reading (codes "hi") ≡ panicked)
unfolding read process_data dispose get_handlers lookup text_eq read_end close_client close
    in_client contains
read-broadcast_example =
    read-broadcast plain handlers 0 (codes "boom" ∷ []) serving after_reading (codes "hi") refl refl

not_data-response :
    response Code.not_data [] (codes "x")
    ≡ record { code = 1005; msg = codes "没有数据"; payload = codes "x" }
unfolding response get_error_message text_eq name_of code_map
not_data-response = refl
