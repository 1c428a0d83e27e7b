-- ===== src/Ws/Manager/Timeouts.antt =====
-- Which connections are closed for want of a heartbeat.
use microservices_trading_bo.Common.{
  ℕ, ◌+◌, ◌≤◌, ◌<◌, ◌≡◌, refl, ◌∙◌, ◌↔◌, ◌⊎◌, true, ◌&&◌, List, [], ◌∷◌, arith, if◌then◌else◌,
  Bool-cases, inl, inr, contains,
}
use microservices_trading_bo.Ws.Client.{Client, is_heartbeat_timeout}
use microservices_trading_bo.Ws.Manager.{
  Manager, write_heap, in_client, get_clients, close_timed_out, clear_timeout_connections,
}
use microservices_trading_bo.Ws.Manager.Broadcast.{contains-get_clients}

-- A heartbeat at `t` is older than six minutes; where t + 360 is beyond 64 bits, the code compares what
-- is left of it.
abbrev pub IsStale : ℕ → ℕ → Type 0
IsStale now t =
    ((t + 360 < 18446744073709551616) × (t + 360 ≤ now))
    ⊎ ((18446744073709551616 ≤ t + 360) × (t + 360 ≤ now + 18446744073709551616))

is_heartbeat_timeout_iff :
    (c : Client) (now : ℕ)
    → c.heartbeat_time < 18446744073709551616
    → (is_heartbeat_timeout c now ≡ true) ↔ IsStale now c.heartbeat_time
unfolding is_heartbeat_timeout
is_heartbeat_timeout_iff c now h = (λ e. ground (arith, e, h), λ s. ground (arith, s, h))

abbrev pub closed_socket : Client → Client
closed_socket c = record c { socket_closed = true }

late : ℕ → List ℕ → (ℕ → Client) → ℕ → Client
late now ps h q =
    if contains q ps && is_heartbeat_timeout (h q) now then closed_socket (h q) else h q

timeout-closed_socket :
    (c : Client) (now : ℕ) → is_heartbeat_timeout (closed_socket c) now ≡ is_heartbeat_timeout c now
unfolding is_heartbeat_timeout
timeout-closed_socket c now = refl

late-cons :
    (now p : ℕ) (ps : List ℕ) (h : ℕ → Client) (q : ℕ)
    → late now ps
        (if is_heartbeat_timeout (h p) now then write_heap h p (closed_socket (h p)) else h)
        q
      ≡ late now (p ∷ ps) h q
unfolding late contains
late-cons now p ps h q = elim (Bool-cases (is_heartbeat_timeout (h p) now)) [
  | inl out ↦ rw out (ground (arith, timeout-closed_socket (h p) now))
  | inr in_time ↦ rw in_time (ground arith)
]

close_timed_out_lem :
    (now : ℕ) (ps : List ℕ) (h : ℕ → Client) (q : ℕ) → close_timed_out now ps h q ≡ late now ps h q
unfolding close_timed_out contains late
close_timed_out_lem now [] h q = refl
close_timed_out_lem now (p ∷ ps) h q = close_timed_out_lem now ps _ q ∙ late-cons now p ps h q

-- The clean-up closes the socket of every connected client whose heartbeat is out of date, and does
-- nothing to any other client.
clear_timeout_connections_lem :
    (m : Manager) (now q : ℕ)
    → (clear_timeout_connections m now).heap q ≡ (
        if in_client m q && is_heartbeat_timeout (m.heap q) now
        then closed_socket (m.heap q)
        else m.heap q)
unfolding clear_timeout_connections late
clear_timeout_connections_lem m now q =
    close_timed_out_lem now (get_clients m) m.heap q ∙ rw (contains-get_clients m q)

-- The clean-up leaves a client's socket closed exactly if it was closed before, or the client is
-- connected and its last heartbeat is 360 seconds old or older; the times of heartbeats have 64 bits,
-- and where 360 seconds more are beyond that, what is left of the sum is compared. It changes nothing
-- else of any client.
pub clear_timeout_connections-closes_iff :
    (m : Manager) (now q : ℕ)
    → (m.heap q).heartbeat_time < 18446744073709551616
    → (((clear_timeout_connections m now).heap q).socket_closed ≡ true ↔ (
        ((m.heap q).socket_closed ≡ true)
        ⊎ ((in_client m q ≡ true) × IsStale now (m.heap q).heartbeat_time)))
      × ((clear_timeout_connections m now).heap q ≡ record (m.heap q) {
        socket_closed = ((clear_timeout_connections m now).heap q).socket_closed;
      })
clear_timeout_connections-closes_iff m now q h =
    rw (clear_timeout_connections_lem m now q) (elim (Bool-cases (in_client m q)) [
      | inr out ↦ ground (arith, out)
      | inl here ↦ elim (Bool-cases (is_heartbeat_timeout (m.heap q) now)) [
        | inl late_now ↦
            let stale = (is_heartbeat_timeout_iff (m.heap q) now h).0 late_now in
            rw (here, late_now) ((λ e. inr (refl, stale), λ s. refl), refl)
        | inr in_time ↦
            rw (here, in_time)
              (
                (
                  λ e. inl e,
                  λ s. elim s [
                    | inl e ↦ e
                    | inr (_, stale) ↦ absurd (
                        ground
                          (arith, in_time, (is_heartbeat_timeout_iff (m.heap q) now h).1 stale))
                  ],
                ),
                refl,
              )
      ]
    ])
