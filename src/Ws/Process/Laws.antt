-- ===== src/Ws/Process/Laws.antt =====
-- What a client is sent for a request.
use microservices_trading_bo.Common.{
  ℕ, text_eq, ◌≡◌, refl, codes, List, [], ◌∷◌, none, some, if◌then◌else◌, ◌==◌, ==_iff, arith,
  Bool-cases, inl, inr,
}
use microservices_trading_bo.Ws.Channel.{done}
use microservices_trading_bo.Ws.Client.{Message}
use microservices_trading_bo.Ws.Code
use microservices_trading_bo.Common.Names.{name_of}
use microservices_trading_bo.Ws.ErrorCode.{get_error_message, code_map, get_error_message_lem}
use microservices_trading_bo.Ws.Manager.{Manager, write_heap}
use microservices_trading_bo.Ws.Manager.Delivery.{
  delivered, HasRoom, send_to_lem, delivered-append, HasRoom-delivered,
}
use microservices_trading_bo.Ws.Process.{
  Wire, Request, Response, answers, Handler, Handlers, get_handlers, send_client, respond, dispose,
  not_routed, process_data,
}

-- The client `p` was sent `ms`, in this order, and nothing else is changed.
pub record Sent (m : Manager) (p : ℕ) (ms : List Message) (m' : Manager) : Type 0 where
  pub heap : (q : ℕ) → m'.heap q ≡ (if p == q then delivered (m.heap p) ms else m.heap q)
  pub next : m'.next ≡ m.next
  pub clients : m'.clients ≡ m.clients
  pub users : m'.users ≡ m.users
  pub register_queue : m'.register_queue ≡ m.register_queue
  pub login_queue : m'.login_queue ≡ m.login_queue
  pub unregister_queue : m'.unregister_queue ≡ m.unregister_queue
  pub broadcast_queue : m'.broadcast_queue ≡ m.broadcast_queue

pub after : Manager → ℕ → Message → Manager
after m p msg = record m { heap = write_heap m.heap p (delivered (m.heap p) (msg ∷ [])) }

after-Sent : (m : Manager) (p : ℕ) (msg : Message) → Sent m p (msg ∷ []) (after m p msg)
unfolding after
after-Sent m p msg = record {
  heap = λ q. ground arith;
  next = refl;
  clients = refl;
  users = refl;
  register_queue = refl;
  login_queue = refl;
  unregister_queue = refl;
  broadcast_queue = refl;
}

after_twice-Sent :
    (m : Manager) (p : ℕ) (a b : Message) → Sent m p (a ∷ b ∷ []) (after (after m p a) p b)
unfolding after
after_twice-Sent m p a b = record {
  heap = λ q. ground (arith, delivered-append (m.heap p) (a ∷ []) (b ∷ []));
  next = refl;
  clients = refl;
  users = refl;
  register_queue = refl;
  login_queue = refl;
  unregister_queue = refl;
  broadcast_queue = refl;
}

pub send_client_lem :
    (m : Manager) (p : ℕ) (msg : Message)
    → HasRoom (m.heap p) (msg ∷ [])
    → send_client m p msg ≡ done (after m p msg)
unfolding after
send_client_lem m p msg room = rw (send_to_lem m.heap p msg room)

pub room_again :
    (m : Manager) (p : ℕ) (head : Message)
    → HasRoom (m.heap p) (head ∷ head ∷ [])
    → HasRoom ((after m p head).heap p) (head ∷ [])
unfolding after
room_again m p head room =
    rw ((==_iff p p).1 refl) (HasRoom-delivered (m.heap p) (head ∷ []) (head ∷ []) room)

module _ (wire : Wire) where
  open wire use {Payload, Reply, nil_reply, decode, encode_payload, encode_head}

  respond_lem :
      (m : Manager) (p : ℕ) (req : Request Payload) (r : Response Reply) (head : Message)
      → encode_head req.seq r.cmd req.fetch_id r.code (get_error_message r.code r.msg) r.payload
        ≡ some head
      → HasRoom (m.heap p) (if r.voice then head ∷ head ∷ [] else head ∷ [])
      → (m' : Manager) × (respond wire m p req r ≡ done m')
        × Sent m p (if r.voice then head ∷ head ∷ [] else head ∷ []) m'
  unfolding respond
  respond_lem m p req r head e room =
      let msg = get_error_message r.code r.msg in
      let (_, same, _) = get_error_message_lem r.code r.msg in
      elim (Bool-cases r.voice) [
        | inl loud ↦
            let both = rw loud at room in
            let first = send_client_lem m p head (λ o. omega (arith, both o)) in
            let second = send_client_lem (after m p head) p head (room_again m p head both) in
            (
              after (after m p head) p head,
              ground (arith, e, same, first, second, loud),
              rw loud (after_twice-Sent m p head head),
            )
        | inr quiet ↦ (
          after m p head,
          (let only = send_client_lem m p head (rw quiet at room) in
              ground (arith, e, only, quiet)),
          rw quiet (after-Sent m p head),
        )
      ]

  -- A request that is decoded, whose data is encoded again and whose command has a handler, is
  -- handed to that handler with its own sequence number, command and data. If the handler answers
  -- and its reply can be encoded, then the reply, under the sequence number of the request, is put last in the queue of the client
  -- that asked (twice if it is a voice reply), provided that an open queue has room for it; no other
  -- client and no other part of the manager is changed from what the handler left.
  pub process_data_answers :
      (handlers : Handlers Reply) (m m1 : Manager) (p : ℕ) (message request_data head : Message)
      (req : Request Payload) (value : Handler Reply) (r : Response Reply)
      → decode message ≡ some req
      → encode_payload req.payload ≡ some request_data
      → get_handlers req.cmd handlers ≡ some value
      → value m p req.seq req.cmd request_data ≡ answers m1 r
      → encode_head req.seq r.cmd req.fetch_id r.code (get_error_message r.code r.msg) r.payload
        ≡ some head
      → HasRoom (m1.heap p) (if r.voice then head ∷ head ∷ [] else head ∷ [])
      → (m' : Manager) × (process_data wire handlers m p message ≡ done m')
        × Sent m1 p (if r.voice then head ∷ head ∷ [] else head ∷ []) m'
  unfolding process_data dispose
  process_data_answers handlers m m1 p message request_data head req value r d b g h e room =
      let (m', sent, law) = respond_lem m1 p req r head e room in
      (m', rw (process_data, d, b, g, dispose, h) sent, law)

  shown : get_error_message Code.routing_not_exist [] ≡ codes "路由不存在"
  unfolding get_error_message text_eq name_of code_map
  shown = refl

  -- A command that no handler is registered for is answered under its own name and sequence number
  -- with the code RoutingNotExist and the message of that code.
  pub process_data_not_routed :
      (handlers : Handlers Reply) (m : Manager) (p : ℕ) (message request_data head : Message)
      (req : Request Payload)
      → decode message ≡ some req
      → encode_payload req.payload ≡ some request_data
      → get_handlers req.cmd handlers ≡ none
      → encode_head req.seq req.cmd req.fetch_id Code.routing_not_exist (codes "路由不存在") nil_reply
        ≡ some head
      → HasRoom (m.heap p) (head ∷ [])
      → (m' : Manager) × (process_data wire handlers m p message ≡ done m')
        × Sent m p (head ∷ []) m'
  unfolding process_data
  process_data_not_routed handlers m p message request_data head req d b g e room =
      let (m', sent, law) = respond_lem m p req (not_routed wire req) head (rw shown e) room in
      (m', rw (process_data, d, b, g) sent, law)
