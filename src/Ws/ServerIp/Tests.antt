-- ===== src/Ws/ServerIp/Tests.antt =====
-- The address of a server with a loopback interface, one that is down, and one with an IPv6 address first.
use microservices_trading_bo.Common.{
  ◌≡◌, ◌⊎◌, refl, codes, show_nat, text_eq, true, false, [], ◌∷◌, List, All, none, some,
}
use microservices_trading_bo.Ws.ServerIp.{
  Ip, Interface, ip_net, ip_addr, ip_string, dotted, external_ip, get_server_ip, get_ip_from_addr,
  is_loopback, to4,
}
use microservices_trading_bo.Ws.ServerIp.Laws.{used_addrs, IsFirst, OffersNone, get_server_ip_lem}

abbrev v6 : Ip
v6 = 254 ∷ 128 ∷ 0 ∷ 0 ∷ 0 ∷ 0 ∷ 0 ∷ 0 ∷ 0 ∷ 0 ∷ 0 ∷ 0 ∷ 0 ∷ 0 ∷ 0 ∷ 1 ∷ []

abbrev three_interfaces : List Interface
three_interfaces =
    record { up = true; loopback = true; addrs = some (ip_net (some (127 ∷ 0 ∷ 0 ∷ 1 ∷ [])) ∷ []) }
    ∷ record { up = false; loopback = false; addrs = none }
    ∷ record {
      up = true;
      loopback = false;
      addrs = some (
          ip_net (some v6)
          ∷ ip_addr none
          ∷ ip_addr (some (0 ∷ 0 ∷ 0 ∷ 0 ∷ 0 ∷ 0 ∷ 0 ∷ 0 ∷ 0 ∷ 0 ∷ 255 ∷ 255 ∷ 10 ∷ 0 ∷ 0 ∷ 7 ∷ []))
          ∷ []);
    }
    ∷ []

get_server_ip_lem_example :
    (((ip : Ip) × IsFirst (used_addrs three_interfaces) ip
        × (get_server_ip (some three_interfaces) ≡ dotted ip))
      ⊎ (All OffersNone (used_addrs three_interfaces)
          × (get_server_ip (some three_interfaces) ≡ codes "<nil>")))
    × (get_server_ip none ≡ [])
get_server_ip_lem_example = get_server_ip_lem three_interfaces (λ u. cc, (λ u. cc, (λ u. cc, tt)))

server_ip-mapped : get_server_ip (some three_interfaces) ≡ codes "10.0.0.7"
unfolding get_server_ip external_ip get_ip_from_addr is_loopback to4 ip_string show_nat text_eq
server_ip-mapped = refl
