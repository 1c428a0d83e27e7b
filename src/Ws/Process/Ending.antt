-- ===== src/Ws/Process/Ending.antt =====
-- Processing a message comes to its end.
use microservices_trading_bo.Common.{
  ℕ, ◌+◌, ◌≤◌, ◌≡◌, refl, Text, false, some, length, arith, Bool-cases, Option-cases, inl, inr,
}
use microservices_trading_bo.Ws.Channel.{done}
use microservices_trading_bo.Ws.Client.{Message}
use microservices_trading_bo.Ws.ErrorCode.{get_error_message}
use microservices_trading_bo.Ws.Manager.{Manager}
use microservices_trading_bo.Ws.Process.{
  Wire, Request, Response, Disposal, answers, fails, waits, Handler, Handlers, get_handlers,
  bad_request, bad_payload, send_client, respond, dispose, not_routed, process_data,
}
use microservices_trading_bo.Ws.Process.Laws.{after, send_client_lem, room_again}

-- An open queue of the client has room for two more messages.
abbrev pub HasRoomForTwo : Manager → ℕ → Type 0
HasRoomForTwo m p =
    (m.heap p).queue.closed ≡ false → length (m.heap p).queue.buffer + 2 ≤ (m.heap p).queue.capacity

-- A handler that does not wait for ever, and leaves room for its reply if it answers.
abbrev pub KeepsRoom : {Reply : Type 0} → ℕ → Disposal Reply → Type 0
KeepsRoom p (answers m r) = HasRoomForTwo m p
KeepsRoom p (fails m) = Unit
KeepsRoom p waits = ⊥

module _ (wire : Wire) where
  open wire use {Payload, Reply, decode, encode_payload, encode_head}

  send_ends :
      (m : Manager) (p : ℕ) (msg : Message)
      → HasRoomForTwo m p
      → (m' : Manager) × (send_client m p msg ≡ done m')
  send_ends m p msg room = (after m p msg, send_client_lem m p msg (λ o. omega (arith, room o)))

  respond_ends :
      (m : Manager) (p : ℕ) (req : Request Payload) (r : Response Reply)
      → HasRoomForTwo m p
      → (m' : Manager) × (respond wire m p req r ≡ done m')
  unfolding respond
  respond_ends m p req r room =
      let msg = get_error_message r.code r.msg in
      elim (Option-cases (encode_head req.seq r.cmd req.fetch_id r.code msg r.payload)) [
        | inl e ↦ (m, ground (arith, e))
        | inr (head, e) ↦
            let first = send_client_lem m p head (λ o. omega (arith, room o)) in
            elim (Bool-cases r.voice) [
              | inr quiet ↦ (after m p head, ground (arith, e, first, quiet))
              | inl loud ↦
                  elim (Option-cases (
                    encode_head req.seq r.cmd req.fetch_id r.code (get_error_message r.code msg)
                      r.payload)) [
                        | inl f ↦ (after m p head, ground (arith, e, first, loud, f))
                        | inr (again, f) ↦
                            let second =
                              send_client_lem (after m p head) p again (room_again m p head room) in
                            (
                              after (after m p head) p again,
                              ground (arith, e, first, loud, f, second),
                            )
                      ]
            ]
      ]

  dispose_ends :
      (p : ℕ) (req : Request Payload) (d : Disposal Reply)
      → KeepsRoom p d
      → (m' : Manager) × (dispose wire p req d ≡ done m')
  unfolding dispose
  dispose_ends p req (answers m r) room = respond_ends m p req r room
  dispose_ends p req (fails m) room = (m, refl)
  dispose_ends p req waits room = absurd room

  -- Processing a message always comes to its end, whether or not it can be decoded, has a handler and
  -- can be answered, and also if its handler panics: all that it needs is that an open queue of the
  -- client has room for two messages, before and after the handler, and that no handler waits.
  pub process_data_ends :
      (handlers : Handlers Reply) (m : Manager) (p : ℕ) (message : Message)
      → HasRoomForTwo m p
      → ((key : Text) (value : Handler Reply)
          → get_handlers key handlers ≡ some value
          → (seq : Text) (request_data : Message) → KeepsRoom p (value m p seq key request_data))
      → (m' : Manager) × (process_data wire handlers m p message ≡ done m')
  unfolding process_data
  process_data_ends handlers m p message room calm = elim (Option-cases (decode message)) [
    | inl d ↦ let (m', sent) = send_ends m p bad_request room in (m', rw (process_data, d) sent)
    | inr (req, d) ↦ elim (Option-cases (encode_payload req.payload)) [
      | inl b ↦
          let (m', sent) = send_ends m p bad_payload room in (m', rw (process_data, d, b) sent)
      | inr (request_data, b) ↦ elim (Option-cases (get_handlers req.cmd handlers)) [
        | inl g ↦
            let (m', sent) = respond_ends m p req (not_routed wire req) room in
            (m', rw (process_data, d, b, g) sent)
        | inr (value, g) ↦
            let (m', sent) =
              dispose_ends p req (value m p req.seq req.cmd request_data)
                (calm req.cmd value g req.seq request_data) in
            (m', rw (process_data, d, b, g) sent)
      ]
    ]
  ]
