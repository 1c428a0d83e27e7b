-- ===== src/Ws/ServerIp.antt =====
-- data_server/ws/helper: the address of the server, and the id of an order. Package net is written out as far
-- as the code uses it.
pub mod Laws
mod Tests
use microservices_trading_bo.Common.{
  ℕ, Text, codes, show_nat, Bool, true, false, not, ◌&&◌, List, [], ◌∷◌, ◌++◌, Option, none, some,
  if◌then◌else◌, text_eq, ◌==◌, Outcome, ok, err, panics,
}

-- `net.IP`: its bytes.
abbrev pub Ip : Type 0
Ip = List ℕ

-- An IPv4 address in sixteen bytes begins with these.
abbrev v4_in_v6 : Ip
v4_in_v6 = 0 ∷ 0 ∷ 0 ∷ 0 ∷ 0 ∷ 0 ∷ 0 ∷ 0 ∷ 0 ∷ 0 ∷ 255 ∷ 255 ∷ []

abbrev v6_loopback : Ip
v6_loopback = 0 ∷ 0 ∷ 0 ∷ 0 ∷ 0 ∷ 0 ∷ 0 ∷ 0 ∷ 0 ∷ 0 ∷ 0 ∷ 0 ∷ 0 ∷ 0 ∷ 0 ∷ 1 ∷ []

-- What is left of an address after a prefix.
after_prefix : Ip → Ip → Option Ip
after_prefix [] ip = some ip
after_prefix (b ∷ bs) [] = none
after_prefix (b ∷ bs) (c ∷ ip) = let rest = after_prefix bs ip in if b == c then rest else none

four_bytes : Option Ip → Option Ip
four_bytes (some (a ∷ (b ∷ (c ∷ (d ∷ []))))) = some (a ∷ b ∷ c ∷ d ∷ [])
four_bytes _ = none

-- `To4`
unfoldable pub to4 : Ip → Option Ip
unfolding after_prefix four_bytes
to4 ip = elim (four_bytes (some ip)) [
  | some short ↦ some short
  | none ↦ four_bytes (after_prefix v4_in_v6 ip)
]

-- The first byte of an IPv4 address is 127.
abbrev pub begins_127 : Ip → Bool
begins_127 [] = false
begins_127 (b ∷ _) = b == 127

-- `IsLoopback`
unfoldable pub is_loopback : Ip → Bool
unfolding to4
is_loopback ip = elim (to4 ip) [ some short ↦ begins_127 short | none ↦ text_eq ip v6_loopback ]

-- The types of address that the code tells apart; their IP may be nil.
pub data Addr : Type 0 where
  ip_net ip_addr : Option Ip → Addr
  other : Addr

-- `addrs` is none if `Addrs` fails.
pub record Interface : Type 0 where
  pub up : Bool
  pub loopback : Bool
  pub addrs : Option (List Addr)

abbrev ip_of : Addr → Option Ip
ip_of (ip_net ip) = ip
ip_of (ip_addr ip) = ip
ip_of other = none

unfoldable pub get_ip_from_addr : Addr → Option Ip
unfolding is_loopback to4
get_ip_from_addr addr = elim (ip_of addr) [
  | none ↦ none
  | some ip ↦ if is_loopback ip then none else to4 ip
]

-- The inner loop of `externalIP`.
unfoldable pub first_ip : List Addr → Option Ip
unfolding get_ip_from_addr
first_ip [] = none
first_ip (addr ∷ addrs) = elim (get_ip_from_addr addr) [ none ↦ first_ip addrs | some ip ↦ some ip ]

abbrev addrs_failed : Text
addrs_failed = codes "route ip+net"

-- The outer loop: at its end the address is nil, and so is the error.
ip_from : List Interface → Outcome Text (Option Ip)
unfolding first_ip
ip_from [] = ok none
ip_from (iface ∷ ifaces) =
    let later = ip_from ifaces in
    if not iface.up then later else if iface.loopback then later else (elim iface.addrs [
      | none ↦ err addrs_failed
      | some addrs ↦ elim (first_ip addrs) [ none ↦ later | some ip ↦ ok (some ip) ]
    ])

-- `interfaces` is none if `net.Interfaces` fails.
unfoldable pub external_ip : Option (List Interface) → Outcome Text (Option Ip)
unfolding ip_from
external_ip none = err (codes "route ip+net")
external_ip (some ifaces) = ip_from ifaces

-- `String` of an IPv4 address, and of nil.
abbrev pub dotted : Ip → Text
dotted [] = []
dotted (b ∷ []) = show_nat b
dotted (b ∷ (c ∷ ip)) = show_nat b ++ b'.' ∷ dotted (c ∷ ip)

unfoldable pub ip_string : Option Ip → Text
ip_string none = codes "<nil>"
ip_string (some ip) = dotted ip

unfoldable pub get_server_ip : Option (List Interface) → Text
unfolding external_ip ip_string
get_server_ip interfaces = elim (external_ip interfaces) [
  | ok ip ↦ ip_string ip
  | err _ ↦ []
  | panics ↦ []
]

-- `GetOrderIdTime`; the nanosecond of the clock is an argument.
unfoldable pub get_order_id_time : ℕ → Text
get_order_id_time nanosecond = show_nat nanosecond
