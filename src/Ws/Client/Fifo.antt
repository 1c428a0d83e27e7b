-- ===== src/Ws/Client/Fifo.antt =====
-- The queue between `SendMsg` and `Write`.
use mathlib.Core.List.{append_assoc, append-nil}
use microservices_trading_bo.Common.{
  ◌+◌, ◌≤◌, ◌≡◌, refl, ap, ◌∙◌, true, false, List, [], ◌∷◌, ◌++◌, Option, some, none, length,
  length-append, arith,
}
use microservices_trading_bo.Ws.Channel.{Run, done, ◌>>=◌}
use microservices_trading_bo.Ws.Client.{Client, Message, send_msg, read_end, write, write_from}

-- `SendMsg` once for each message.
unfoldable pub send_msgs : Client → List Message → Run (Option Client)
send_msgs c [] = done (some c)
send_msgs c (msg ∷ msgs) = do
  sent ← send_msg (some c) msg
  elim sent [ none ↦ done none | some c' ↦ send_msgs c' msgs ]

abbrev pub queued : Client → List Message → Client
queued c msgs = record c { queue = record c.queue { buffer = c.queue.buffer ++ msgs } }

abbrev pub shut : Client → Client
shut c = record c { queue = record c.queue { closed = true } }

send_msg-open :
    (c : Client) (msg : Message)
    → c.queue.closed ≡ false
    → length c.queue.buffer + 1 ≤ c.queue.capacity
    → send_msg (some c) msg ≡ done (some (queued c (msg ∷ [])))
unfolding send_msg
send_msg-open c msg o room = ground arith

send_msgs-open :
    (c : Client) (msgs : List Message)
    → c.queue.closed ≡ false
    → length c.queue.buffer + length msgs ≤ c.queue.capacity
    → send_msgs c msgs ≡ done (some (queued c msgs))
unfolding send_msgs
send_msgs-open c [] o room = ground (arith, append-nil c.queue.buffer)
send_msgs-open c (msg ∷ msgs) o room =
    let rest =
      send_msgs-open (queued c (msg ∷ [])) msgs o
        (omega (arith, length-append c.queue.buffer (msg ∷ []))) in
    rw (send_msg-open c msg o (omega arith)) (
      rest
      ∙ ap (λ b. done (some (record c { queue = record c.queue { buffer = b } })))
          (append_assoc c.queue.buffer (msg ∷ []) msgs))

send_msgs-shut : (c : Client) (msgs : List Message) → send_msgs (shut c) msgs ≡ done (some (shut c))
unfolding send_msgs send_msg
send_msgs-shut c [] = refl
send_msgs-shut c (msg ∷ msgs) = send_msgs-shut c msgs

write_from_lem :
    (ms : List Message) (c : Client)
    → c.queue.buffer ≡ ms
    → write_from ms c ≡ (ms, record c { queue = record c.queue { buffer = [] } })
unfolding write_from
write_from_lem [] c e = ground arith
write_from_lem (m ∷ ms) c e =
    let rest = write_from_lem ms (record c { queue = record c.queue { buffer = ms } }) refl in
    ground (arith, rest)

pub write_all_sent :
    (c : Client) (msgs later : List Message)
    → c.queue.closed ≡ false
    → length c.queue.buffer + length msgs ≤ c.queue.capacity
    → (c' : Client) × ((send_msgs c msgs >>= λ sent. elim sent [
      | none ↦ done c
      | some d ↦ read_end d
    ])
        ≡ done c')
      × (send_msgs c' later ≡ done (some c'))
      × ((write c').0 ≡ c.queue.buffer ++ msgs)
      × ((write c').1.queue.buffer ≡ [])
unfolding read_end write
write_all_sent c msgs later o room =
    let c' = shut (queued c msgs) in
    let written = write_from_lem (c.queue.buffer ++ msgs) c' refl in
    (
      c',
      rw (send_msgs-open c msgs o room) (ground arith),
      send_msgs-shut (queued c msgs) later,
      ground (arith, written),
      ground (arith, written),
    )
