-- ===== src/Ws/System/Goroutines/Tests.antt =====
-- A run in which two loops handle a login and the end of the same client at once.
use microservices_trading_bo.Common.{contains, text_eq, add, ◌≡◌, refl, codes, All, List, [], ◌∷◌}
use microservices_trading_bo.Ws.Channel.{done}
use microservices_trading_bo.Ws.Manager.Events.{Case, ws_page}
use microservices_trading_bo.Ws.Manager.{new_client_manager, add_clients, in_client}
use microservices_trading_bo.Ws.Client.{is_login}
use microservices_trading_bo.Ws.System.Goroutines.{
  serve_act, Server, new_server, Act, connects, asks_unregister, logs_in, takes, goes_on, serve,
}
use microservices_trading_bo.Ws.System.Goroutines.Serves.{IsNamed, IsSettled, serve-IsSettled}

abbrev acts : List Act
acts =
    connects (codes "10.0.0.1:9") 3
    ∷ connects (codes "10.0.0.2:7") 4
    ∷ takes 0 Case.registers
    ∷ goes_on 0
    ∷ goes_on 0
    ∷ logs_in 0 101 (codes "ana") 5
    ∷ goes_on 2
    ∷ takes 0 Case.logs_in
    ∷ goes_on 0
    ∷ asks_unregister 0
    ∷ takes 1 Case.unregisters
    ∷ goes_on 1
    ∷ goes_on 1
    ∷ goes_on 0
    ∷ []

after_acts : Server
after_acts = elim (serve new_server acts) [ done s ↦ s | _ ↦ new_server ]

acts-done : serve new_server acts ≡ done after_acts
unfolding after_acts serve serve_act ws_page new_client_manager add_clients is_login text_eq
    in_client contains add
acts-done = refl

acts-IsNamed : All IsNamed acts
acts-IsNamed =
    (tt, (tt, (tt, (tt, (tt, ((λ e. cc), (tt, (tt, (tt, (tt, (tt, (tt, (tt, (tt, tt))))))))))))))

serve-IsSettled_example : IsSettled after_acts
serve-IsSettled_example = serve-IsSettled acts after_acts acts-IsNamed acts-done
