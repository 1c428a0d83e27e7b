-- ===== src/Ws/Process.antt =====
-- data_server/ws/websocket/acc_process.go: a request is decoded, its handler is called, and the
-- reply is sent. Package models and the encoding of JSON are not part of the repository: `Wire` is
-- what the code uses of them.
pub mod Laws
pub mod Reading
pub mod Ending
mod Tests
use microservices_trading_bo.Common.{
  ℕ, Text, codes, Bool, true, false, List, [], ◌∷◌, Option, none, some, lookup, insert,
  if◌then◌else◌,
}
use microservices_trading_bo.Ws.Channel.{Run, done, blocked, panicked, ◌>>=◌}
use microservices_trading_bo.Ws.Client.{Client, Message, read_end}
use microservices_trading_bo.Ws.Manager.{Manager, send_to, store}
use microservices_trading_bo.Ws.Code
use microservices_trading_bo.Ws.ErrorCode.{get_error_message}

pub record Request (Payload : Type 0) : Type 0 where
  pub seq : Text
  pub cmd : Text
  pub fetch_id : Text
  pub payload : Payload

-- `decode` is `json.Unmarshal` into a Request, `encode_payload` is `json.Marshal` of its data, and
-- `encode_head` is `json.Marshal` of `NewResponseHead(seq, cmd, fetchId, code, msg, data)`.
pub record Wire : Type 1 where
  pub Payload : Type 0
  pub Reply : Type 0
  pub nil_reply : Reply
  pub decode : Message → Option (Request Payload)
  pub encode_payload : Payload → Option Message
  pub encode_head : Text → Text → Text → ℕ → Text → Reply → Option Message

pub record Response (Reply : Type 0) : Type 0 where
  pub code : ℕ
  pub msg : Text
  pub cmd : Text
  pub payload : Reply
  pub voice : Bool

-- How a handler ends: with a response, or with a panic or waiting, and the state as it left it.
pub data Disposal (Reply : Type 0) : Type 0 where
  answers : Manager → Response Reply → Disposal Reply
  fails : Manager → Disposal Reply
  waits : Disposal Reply

-- `DisposeFunc`: the client, the sequence number, the command and the data.
abbrev pub Handler : Type 0 → Type 0
Handler Reply = Manager → ℕ → Text → Text → Message → Disposal Reply

abbrev pub Handlers : Type 0 → Type 0
Handlers Reply = List (Text × Handler Reply)

-- `Register`
unfoldable pub register : {Reply : Type 0} → Text → Handler Reply → Handlers Reply → Handlers Reply
unfolding insert
register key value handlers = insert key value handlers

unfoldable pub get_handlers : {Reply : Type 0} → Text → Handlers Reply → Option (Handler Reply)
unfolding lookup
get_handlers key handlers = lookup key handlers

abbrev pub bad_request : Message
bad_request = codes "数据不合法"

abbrev pub bad_payload : Message
bad_payload = codes "No se pudieron procesar los datos"

-- `client.SendMsg(msg)`
abbrev pub send_client : Manager → ℕ → Message → Run Manager
send_client m p msg = send_to m.heap p msg >>= λ heap. done (record m { heap = heap })

module _ (wire : Wire) where
  open wire use {Payload, Reply, nil_reply, decode, encode_payload, encode_head}

  -- The end of `ProcessData`: the head is sent, and sent again if the response is a voice one. The
  -- second head takes the message that the first has, once more through `GetErrorMessage`.
  unfoldable pub respond : Manager → ℕ → Request Payload → Response Reply → Run Manager
  respond m p req r =
      let msg = get_error_message r.code r.msg in
      elim (encode_head req.seq r.cmd req.fetch_id r.code msg r.payload) [
        | none ↦ done m
        | some head ↦ send_client m p head >>= λ m'.
            if r.voice
            then (elim (encode_head req.seq r.cmd req.fetch_id r.code (get_error_message r.code msg)
                r.payload) [ none ↦ done m' | some again ↦ send_client m' p again ])
            else done m'
      ]

  -- The deferred `recover` of `ProcessData` ends a handler that panics.
  unfoldable pub dispose : ℕ → Request Payload → Disposal Reply → Run Manager
  dispose p req (answers m r) = respond m p req r
  dispose p req (fails m) = done m
  dispose p req waits = blocked

  -- The response to a command that no handler is registered for.
  abbrev pub not_routed : Request Payload → Response Reply
  not_routed req = record {
    code = Code.routing_not_exist;
    msg = [];
    cmd = req.cmd;
    payload = nil_reply;
    voice = false;
  }

  unfoldable pub process_data : Handlers Reply → Manager → ℕ → Message → Run Manager
  process_data handlers m p message = elim (decode message) [
    | none ↦ send_client m p bad_request
    | some req ↦ elim (encode_payload req.payload) [
      | none ↦ send_client m p bad_payload
      | some request_data ↦ elim (get_handlers req.cmd handlers) [
        | none ↦ respond m p req (not_routed req)
        | some value ↦ dispose p req (value m p req.seq req.cmd request_data)
      ]
    ]
  ]

  -- `Read`: each message is processed, until reading fails; then the queue is closed.
  unfoldable pub read : Handlers Reply → ℕ → List Message → Manager → Run Manager
  unfolding process_data read_end
  read handlers p [] m = do c ← read_end (m.heap p); done (store m p c)
  read handlers p (message ∷ messages) m =
      process_data handlers m p message >>= read handlers p messages
