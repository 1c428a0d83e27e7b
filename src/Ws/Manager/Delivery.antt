-- ===== src/Ws/Manager/Delivery.antt =====
-- What a message to all users leaves in the queues of their clients.
use mathlib.Core.List.{append_assoc, append-nil}
use microservices_trading_bo.Common.{
  ℕ, ◌+◌, ◌≤◌, ◌≡◌, refl, subst, sym, ◌∙◌, Bool, true, false, not, ◌&&◌, List, [], ◌∷◌, ◌++◌,
  Option, length, length-append, arith, ◌==◌, ==_iff, if◌then◌else◌, Bool-cases, inl, inr,
}
use microservices_trading_bo.Ws.Channel.{done}
use microservices_trading_bo.Ws.Client.{Client, Message}
use microservices_trading_bo.Ws.Manager.{
  Manager, write_heap, is_ignored, get_user_clients, send_to, send_each, send_all, send_app_id_all,
}

-- The messages that a loop over `ps` has for the client `q`: one for each time that it is named, if
-- it is wanted.
unfoldable pub copies : Message → (ℕ → Bool) → ℕ → List ℕ → List Message
copies msg wanted q [] = []
copies msg wanted q (p ∷ ps) =
    let rest = copies msg wanted q ps in if wanted p && (p == q) then msg ∷ rest else rest

-- A client after messages were sent to it: those behind what its queue held, or nothing if the queue
-- is closed.
unfoldable pub delivered : Client → List Message → Client
delivered c ms =
    if c.queue.closed
    then c
    else record c { queue = record c.queue { buffer = c.queue.buffer ++ ms } }

-- An open queue has room for so many messages more.
abbrev pub HasRoom : Client → List Message → Type 0
HasRoom c ms = c.queue.closed ≡ false → length c.queue.buffer + length ms ≤ c.queue.capacity

pub send_to_lem :
    (h : ℕ → Client) (p : ℕ) (msg : Message)
    → HasRoom (h p) (msg ∷ [])
    → send_to h p msg ≡ done (write_heap h p (delivered (h p) (msg ∷ [])))
unfolding send_to delivered
send_to_lem h p msg room = ground arith

pub delivered-append :
    (c : Client) (xs ys : List Message) → delivered (delivered c xs) ys ≡ delivered c (xs ++ ys)
unfolding delivered
delivered-append c xs ys = ground (arith, append_assoc c.queue.buffer xs ys)

delivered-nil : (c : Client) → delivered c [] ≡ c
unfolding delivered
delivered-nil c = ground (arith, append-nil c.queue.buffer)

pub HasRoom-delivered :
    (c : Client) (xs ys : List Message) → HasRoom c (xs ++ ys) → HasRoom (delivered c xs) ys
unfolding delivered
HasRoom-delivered c xs ys room open_queue =
    ground (arith, length-append c.queue.buffer xs, length-append xs ys)

-- One round for a client that is wanted.
module _ (wanted : ℕ → Bool) (msg : Message) (p : ℕ) (ps : List ℕ) (h : ℕ → Client)
    (want : wanted p ≡ true) (room : (q : ℕ) → HasRoom (h q) (copies msg wanted q (p ∷ ps))) where
  after_one : ℕ → Client
  after_one = write_heap h p (delivered (h p) (msg ∷ []))

  room_here : HasRoom (h p) (msg ∷ copies msg wanted p ps)
  unfolding copies
  room_here = ground (arith, room p)

  sent_one : send_to h p msg ≡ done after_one
  unfolding after_one
  sent_one = send_to_lem h p msg (λ o. omega (arith, room_here o))

  room_after : (q : ℕ) → HasRoom (after_one q) (copies msg wanted q ps)
  unfolding after_one copies
  room_after q = elim (Bool-cases (p == q)) [
    | inl same ↦
        let here : p ≡ q = (==_iff p q).0 same in
        rw same (
          subst (λ r. HasRoom (delivered (h p) (msg ∷ [])) (copies msg wanted r ps)) here
            (HasRoom-delivered (h p) (msg ∷ []) (copies msg wanted p ps) room_here))
    | inr other ↦ rw other (rw (want, other) at (room q))
  ]

  after_one-delivered :
      (q : ℕ)
      → delivered (after_one q) (copies msg wanted q ps)
        ≡ delivered (h q) (copies msg wanted q (p ∷ ps))
  unfolding after_one copies
  after_one-delivered q =
      ground (arith, want, delivered-append (h p) (msg ∷ []) (copies msg wanted q ps))

pub send_each_lem :
    (wanted : ℕ → Bool) (msg : Message) (ps : List ℕ) (h : ℕ → Client)
    → ((q : ℕ) → HasRoom (h q) (copies msg wanted q ps))
    → (k : ℕ → Client) × (send_each wanted msg ps h ≡ done k)
      × ((q : ℕ) → k q ≡ delivered (h q) (copies msg wanted q ps))
unfolding send_each copies
send_each_lem wanted msg [] h room = (h, refl, λ q. sym (delivered-nil (h q)))
send_each_lem wanted msg (p ∷ ps) h room = elim (Bool-cases (wanted p)) [
  | inl want ↦
      let (k, done_k, at_k) =
        send_each_lem wanted msg ps (after_one wanted msg p ps h want room)
          (room_after wanted msg p ps h want room) in
      (
        k,
        rw (want, sent_one wanted msg p ps h want room) done_k,
        λ q. at_k q ∙ after_one-delivered wanted msg p ps h want room q,
      )
  | inr skip ↦
      let (k, done_k, at_k) = send_each_lem wanted msg ps h (λ q. rw skip at (room q)) in
      (k, rw skip done_k, λ q. at_k q ∙ rw skip)
]

-- The test of `sendAll` before a send, and that of `sendAppIdAll`.
abbrev pub is_wanted : Option ℕ → ℕ → Bool
is_wanted ignored p = not (is_ignored ignored p)

abbrev pub is_wanted_on : Manager → ℕ → Option ℕ → ℕ → Bool
is_wanted_on m app_id ignored p = not (is_ignored ignored p) && ((m.heap p).app_id == app_id)

-- Where the open queues have room for it, a message to all users is sent to its end: it stands last
-- in the queue of each client that an entry of the map of users leads to, once for each entry,
-- closed queues and the ignored client excepted, and no other client is changed.
pub send_all_delivers :
    (m : Manager) (msg : Message) (ignored : Option ℕ)
    → ((q : ℕ) → HasRoom (m.heap q) (copies msg (is_wanted ignored) q (get_user_clients m)))
    → (m' : Manager) × (send_all m msg ignored ≡ done m')
      × ((q : ℕ)
          → m'.heap q
            ≡ delivered (m.heap q) (copies msg (is_wanted ignored) q (get_user_clients m)))
      × (m'.clients ≡ m.clients)
      × (m'.users ≡ m.users)
unfolding send_all
send_all_delivers m msg ignored room =
    let (k, done_k, at_k) =
      send_each_lem (is_wanted ignored) msg (get_user_clients m) m.heap room in
    (record m { heap = k }, rw done_k, at_k, refl, refl)

-- So it is with a message to the users of one platform: clients of another platform are excepted
-- too.
pub send_app_id_all_delivers :
    (m : Manager) (msg : Message) (app_id : ℕ) (ignored : Option ℕ)
    → ((q : ℕ)
        → HasRoom (m.heap q) (copies msg (is_wanted_on m app_id ignored) q (get_user_clients m)))
    → (m' : Manager) × (send_app_id_all m msg app_id ignored ≡ done m')
      × ((q : ℕ)
          → m'.heap q
            ≡ delivered
                (m.heap q)
                (copies msg (is_wanted_on m app_id ignored) q (get_user_clients m)))
      × (m'.clients ≡ m.clients)
      × (m'.users ≡ m.users)
unfolding send_app_id_all
send_app_id_all_delivers m msg app_id ignored room =
    let (k, done_k, at_k) =
      send_each_lem (is_wanted_on m app_id ignored) msg (get_user_clients m) m.heap room in
    (record m { heap = k }, rw done_k, at_k, refl, refl)
