-- ===== src/Ws/System/Directory.antt =====
-- What the manager of data_server/ws/websocket/client_manager.go promises: a set of connected clients and
-- at most one client for each user. How the maps are held, and in which order, is forgotten.
pub mod Refines
pub mod Returns
use mathlib.Core.Path.{fun_ext}
use microservices_trading_bo.Common.{
  ℕ, ◌≡◌, refl, sym, ap, ◌∙◌, Text, text_eq, text_eq_iff, Bool, true, false, List, [], ◌∷◌, Option,
  none, some, ◌==◌, ==_iff, if◌then◌else◌, lookup, delete, lookup-insert, lookup-delete, subst,
  contains, contains-add, contains-remove, arith, Bool-cases, Option-cases, inl, inr,
}
use microservices_trading_bo.Ws.Channel.{Run, done, ◌>>=◌, >>=-eq-done}
use microservices_trading_bo.Ws.Client.{
  Client, Login, Message, client_key, login_key, enqueue, close_client,
}
use microservices_trading_bo.Ws.Manager.{
  Manager, store, write_heap, in_client, get_clients, add_clients, add_users, del_clients,
  del_users, clear_timeout_connections,
}
use microservices_trading_bo.Ws.Manager.Events.{
  greeting, event_register, event_login, event_unregister, event_broadcast, broadcast_each,
}
use microservices_trading_bo.Ws.System.Identity.{
  SameUsers, SameUsers-refl, SameUsers-trans, client_key-SameUser, write_heap-SameUsers,
  enqueue-SameUser, close_client-SameUser, broadcast_each-SameUsers,
  clear_timeout_connections-SameUsers,
}

pub record Directory : Type 0 where
  pub connected : ℕ → Bool
  pub client_of : Text → Option ℕ

unfoldable pub view : Manager → Directory
unfolding in_client lookup
view m = record { connected = in_client m; client_of = λ k. lookup k m.users }

-- What the manager's loop and the clean-up do, one handler after another.
pub data Job : Type 0 where
  registers unregisters : ℕ → Job
  logs_in : Login → Job
  broadcasts : Message → Job
  clears : ℕ → Job

unfoldable pub work : Manager → Job → Run Manager
unfolding event_register event_login event_unregister event_broadcast clear_timeout_connections
work m (registers p) = event_register m p
work m (unregisters p) = event_unregister m p
work m (logs_in l) = done (event_login m l)
work m (broadcasts msg) = event_broadcast m msg
work m (clears now) = done (clear_timeout_connections m now)

unfoldable pub work_all : Manager → List Job → Run Manager
unfolding work
work_all m [] = done m
work_all m (j ∷ js) = work m j >>= λ m'. work_all m' js

-- The same on a directory; `who` gives the address, the platform and the user id of a client.
unfoldable pub note : (ℕ → Client) → Directory → Job → Directory
note who d (registers p) = record d { connected = λ q. if p == q then true else d.connected q }
note who d (unregisters p) =
    let gone : Directory = record d { connected = λ q. if p == q then false else d.connected q } in
    elim (d.client_of (client_key (who p))) [
      | none ↦ gone
      | some q ↦
          if text_eq (who q).addr (who p).addr
          then record gone {
            client_of = λ k. if text_eq (client_key (who p)) k then none else d.client_of k;
          }
          else gone
    ]
note who d (logs_in l) =
    if d.connected l.client
    then record d {
      client_of = λ k. if text_eq (login_key l) k then some l.client else d.client_of k;
    }
    else d
note who d (broadcasts msg) = d
note who d (clears now) = d

unfoldable pub note_all : (ℕ → Client) → Directory → List Job → Directory
unfolding note
note_all who d [] = d
note_all who d (j ∷ js) = note_all who (note who d j) js
