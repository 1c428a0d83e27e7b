-- ===== src/Ws/System/Goroutines/Beside.antt =====
-- What happens beside the goroutines of the server, and what a loop takes from a queue, keep the
-- invariant.
use microservices_trading_bo.Common.{ℕ, Text, List, [], arith, Bool-cases, inl, inr, ltb}
use microservices_trading_bo.Ws.Channel.{
  done, blocked, panicked, Ensures, Ensures->>=, Ensures-receipt, receive, receive-buffer, send,
}
use microservices_trading_bo.Ws.Client.{Message, new_client, read_end, write}
use microservices_trading_bo.Ws.Manager.{Manager, write_heap, clear_timeout_connections}
use microservices_trading_bo.Ws.Manager.Events.{Case, ws_page}
use microservices_trading_bo.Ws.System
use microservices_trading_bo.Ws.System.Identity.{
  write_heap-SameUsers, read_end-SameUser, write-SameUser, clear_timeout_connections-SameUsers,
}
use microservices_trading_bo.Ws.System.Sound.{Keeps, All-map, Keeps-IsPending}
use microservices_trading_bo.Ws.System.Loops.{Stage, broadcast_begins}
use microservices_trading_bo.Ws.System.Goroutines.{take}
use microservices_trading_bo.Ws.System.Goroutines.Known.{
  IsKnown, IsMove, Keeps-IsFair, Keeps-IsUser, heap-IsKnown,
}

-- The events beside the goroutines.
module _ (m : Manager) (ss : List Stage) (v : IsKnown m ss) where
  ws_page-IsKnown : (addr : Text) (now : ℕ) → Ensures (λ m'. IsKnown m' ss) (ws_page m addr now)
  unfolding ws_page new_client
  ws_page-IsKnown addr now =
      Ensures->>= (λ m'. IsKnown m' ss) (send m.register_queue m.next) _
        λ queue _.
          let heap = write_heap m.heap m.next (new_client addr now) in
          let keep : Keeps m.heap heap = λ p n. ground (arith, v.unused p) in
          record {
            entries = λ k p e. Keeps-IsUser m.heap heap k p keep (v.entries k p e);
            pending = Keeps-IsPending m.heap heap m.login_queue.buffer keep v.pending;
            at_hand = All-map (λ t f. Keeps-IsFair m.heap heap t keep f) ss v.at_hand;
            unused = λ p n. ground (arith, v.unused p);
          }

  pub connects-IsKnown :
      (addr : Text) (now : ℕ)
      → Ensures (λ m'. IsKnown m' ss) (System.step m (System.Event.connects addr now))
  unfolding System.step
  connects-IsKnown addr now = ws_page-IsKnown addr now

  pub read_ends-IsKnown :
      (p : ℕ) → Ensures (λ m'. IsKnown m' ss) (System.step m (System.Event.read_ends p))
  unfolding System.step
  read_ends-IsKnown p = elim (Bool-cases (ltb p m.next)) [
    | inl old ↦ rw old (
        Ensures->>= (λ m'. IsKnown m' ss) (read_end (m.heap p)) _
          λ c e.
            heap-IsKnown m (write_heap m.heap p c) ss
              (write_heap-SameUsers m.heap p c (read_end-SameUser (m.heap p) c e)) v)
    | inr new ↦ rw new v
  ]

  pub writes-IsKnown :
      (p : ℕ) → Ensures (λ m'. IsKnown m' ss) (System.step m (System.Event.writes p))
  unfolding System.step
  writes-IsKnown p = elim (Bool-cases (ltb p m.next)) [
    | inl old ↦ rw old (
        heap-IsKnown m (write_heap m.heap p (write (m.heap p)).1) ss
          (write_heap-SameUsers m.heap p (write (m.heap p)).1 (write-SameUser (m.heap p))) v)
    | inr new ↦ rw new v
  ]

  pub asks_unregister-IsKnown :
      (p : ℕ) → Ensures (λ m'. IsKnown m' ss) (System.step m (System.Event.asks_unregister p))
  unfolding System.step
  asks_unregister-IsKnown p = elim (Bool-cases (ltb p m.next)) [
    | inl old ↦ rw old (
        Ensures->>= (λ m'. IsKnown m' ss) (send m.unregister_queue p) _
          λ queue _. record {
            entries = v.entries;
            pending = v.pending;
            at_hand = v.at_hand;
            unused = v.unused;
          })
    | inr new ↦ rw new v
  ]

  pub asks_broadcast-IsKnown :
      (msg : Message)
      → Ensures (λ m'. IsKnown m' ss) (System.step m (System.Event.asks_broadcast msg))
  unfolding System.step
  asks_broadcast-IsKnown msg =
      Ensures->>= (λ m'. IsKnown m' ss) (send m.broadcast_queue msg) _
        λ queue _. record {
          entries = v.entries;
          pending = v.pending;
          at_hand = v.at_hand;
          unused = v.unused;
        }

  pub clears-IsKnown :
      (now : ℕ) → Ensures (λ m'. IsKnown m' ss) (System.step m (System.Event.clears now))
  unfolding System.step clear_timeout_connections
  clears-IsKnown now =
      heap-IsKnown m (clear_timeout_connections m now).heap ss
        (clear_timeout_connections-SameUsers m now) v

  pub take-IsMove : (c : Case) → Ensures (IsMove ss) (take m c)
  unfolding take
  take-IsMove Case.registers =
      Ensures-receipt (IsMove ss) (receive m.register_queue) _ panicked blocked
        (λ p queue _. (
          record {
            entries = v.entries;
            pending = v.pending;
            at_hand = v.at_hand;
            unused = v.unused;
          },
          tt,
        ))
        tt tt
  take-IsMove Case.logs_in =
      Ensures-receipt (IsMove ss) (receive m.login_queue) _ panicked blocked
        (λ l queue e.
          let (first, later) = (rw (receive-buffer m.login_queue queue l e) at v.pending) in
          (
            record { entries = v.entries; pending = later; at_hand = v.at_hand; unused = v.unused },
            first,
          ))
        tt tt
  take-IsMove Case.unregisters =
      Ensures-receipt (IsMove ss) (receive m.unregister_queue) _ panicked blocked
        (λ p queue _. (
          record {
            entries = v.entries;
            pending = v.pending;
            at_hand = v.at_hand;
            unused = v.unused;
          },
          tt,
        ))
        tt tt
  take-IsMove Case.broadcasts =
      Ensures-receipt (IsMove ss) (receive m.broadcast_queue) _ (done (m, broadcast_begins []))
        blocked
        (λ msg queue _. (
          record {
            entries = v.entries;
            pending = v.pending;
            at_hand = v.at_hand;
            unused = v.unused;
          },
          tt,
        ))
        (v, tt) tt
