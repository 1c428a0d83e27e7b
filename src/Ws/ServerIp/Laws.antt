-- ===== src/Ws/ServerIp/Laws.antt =====
-- Which address data_server/ws/helper/server_helper.go takes.
use microservices_trading_bo.Common.{
  ◌≡◌, ◌≢◌, ◌↔◌, ◌⊎◌, refl, Bool, true, not, ◌&&◌, List, [], ◌∷◌, ◌++◌, Option, none, some,
  if◌then◌else◌, ok, ap, ◌∙◌, codes, length, All, arith, Bool-cases, Option-cases, inl, inr,
}
use microservices_trading_bo.Ws.ServerIp.{
  Ip, Addr, ip_net, ip_addr, other, Interface, four_bytes, after_prefix, to4, begins_127,
  is_loopback, get_ip_from_addr, first_ip, ip_from, external_ip, ip_string, dotted, get_server_ip,
  v4_in_v6, ip_of,
}

-- The code looks at an interface.
abbrev pub is_used : Interface → Bool
is_used iface = iface.up && not iface.loopback

-- The IPv4 address `ip`: itself, or in sixteen bytes, behind ten of 0 and two of 255.
abbrev pub IsV4 : Ip → Ip → Type 0
IsV4 long ip =
    (length ip ≡ 4)
    × ((long ≡ ip) ⊎ (long ≡ 0 ∷ 0 ∷ 0 ∷ 0 ∷ 0 ∷ 0 ∷ 0 ∷ 0 ∷ 0 ∷ 0 ∷ 255 ∷ 255 ∷ ip))

-- The loopback network is 127.0.0.0/8.
abbrev pub IsLocal : Ip → Type 0
IsLocal ip = (rest : Ip) × (ip ≡ 127 ∷ rest)

-- An address of either type that holds the IPv4 address `ip`, which is not of the loopback network.
abbrev pub Offers : Addr → Ip → Type 0
Offers addr ip =
    (long : Ip) × ((addr ≡ ip_net (some long)) ⊎ (addr ≡ ip_addr (some long)))
    × IsV4 long ip
    × ¬ IsLocal ip

-- No address of the list holds one.
abbrev pub OffersNone : Addr → Type 0
OffersNone addr = (ip : Ip) → ¬ Offers addr ip

-- `ip` is what the first address holds that holds one.
abbrev pub IsFirst : List Addr → Ip → Type 0
IsFirst addrs ip =
    (before after : List Addr) × (addr : Addr) × (addrs ≡ before ++ addr ∷ after)
    × All OffersNone before
    × Offers addr ip

abbrev addrs_of : Interface → List Addr
addrs_of iface = elim iface.addrs [ none ↦ [] | some addrs ↦ addrs ]

-- The addresses of the interfaces that are up and not of the loopback network, as the system lists them.
abbrev pub used_addrs : List Interface → List Addr
used_addrs [] = []
used_addrs (iface ∷ ifaces) =
    if is_used iface then addrs_of iface ++ used_addrs ifaces else used_addrs ifaces

-- The addresses of an interface that is looked at can be listed.
abbrev pub IsListed : Interface → Type 0
IsListed iface = is_used iface ≡ true → iface.addrs ≢ none

four_bytes_iff :
    (o : Option Ip) (ip : Ip) → (four_bytes o ≡ some ip) ↔ ((o ≡ some ip) × (length ip ≡ 4))
unfolding four_bytes
four_bytes_iff none ip = ground arith
four_bytes_iff (some []) ip = ground arith
four_bytes_iff (some (a ∷ [])) ip = ground arith
four_bytes_iff (some (a ∷ (b ∷ []))) ip = ground arith
four_bytes_iff (some (a ∷ (b ∷ (c ∷ [])))) ip = ground arith
four_bytes_iff (some (a ∷ (b ∷ (c ∷ (d ∷ []))))) ip = ground arith
four_bytes_iff (some (a ∷ (b ∷ (c ∷ (d ∷ (x ∷ rest)))))) ip = ground arith

after_prefix_iff : (bs long ip : Ip) → (after_prefix bs long ≡ some ip) ↔ (long ≡ bs ++ ip)
unfolding after_prefix
after_prefix_iff [] long ip = ground arith
after_prefix_iff (b ∷ bs) [] ip = ground arith
after_prefix_iff (b ∷ bs) (c ∷ long) ip = ground (arith, after_prefix_iff bs long ip)

to4_iff : (long ip : Ip) → (to4 long ≡ some ip) ↔ IsV4 long ip
unfolding to4
to4_iff long ip =
    let whole = four_bytes_iff (some long) ip in
    let part = four_bytes_iff (after_prefix v4_in_v6 long) ip in
    let cut = after_prefix_iff v4_in_v6 long ip in
    elim (Option-cases (four_bytes (some long))) [
      | inl wide ↦
          rw (to4, wide)
            (
              λ e. let (rest, len) = part.0 e in (len, inr (cut.0 rest)),
              λ (len, held). elim held [
                | inl same ↦ absurd (ground (arith, wide, whole.1 (ap some same, len)))
                | inr mapped ↦ part.1 (cut.1 mapped, len)
              ],
            )
      | inr (short, found) ↦
          let (same_short, four) = (four_bytes_iff (some long) short).0 found in
          rw (to4, found)
            (
              λ e. ground (arith, e, same_short, four),
              λ (len, held). elim held [
                | inl same ↦ ground (arith, same, same_short)
                | inr mapped ↦ absurd (ground (arith, mapped, same_short, four))
              ],
            )
    ]

begins_127_iff : (ip : Ip) → (begins_127 ip ≡ true) ↔ IsLocal ip
begins_127_iff [] = (λ e. cc, λ (rest, e). cc)
begins_127_iff (b ∷ ip) = (λ e. (ip, ground (arith, e)), λ (rest, e). ground (arith, e))

ip_of_iff :
    (addr : Addr) (long : Ip)
    → (ip_of addr ≡ some long) ↔ ((addr ≡ ip_net (some long)) ⊎ (addr ≡ ip_addr (some long)))
ip_of_iff (ip_net ip) long = ground arith
ip_of_iff (ip_addr ip) long = ground arith
ip_of_iff other long = ground arith

get_ip_from_addr_iff : (addr : Addr) (ip : Ip) → (get_ip_from_addr addr ≡ some ip) ↔ Offers addr ip
unfolding get_ip_from_addr is_loopback
get_ip_from_addr_iff addr ip = (
  λ e. elim (Option-cases (ip_of addr)) [
    | inl missing ↦ absurd (ground (arith, missing, e))
    | inr (long, there) ↦ elim (Option-cases (to4 long)) [
      | inl wide ↦ absurd (ground (arith, there, wide, e))
      | inr (short, found) ↦ elim (Bool-cases (begins_127 short)) [
        | inl near ↦ absurd (ground (arith, there, found, near, e))
        | inr far ↦
            let same : short ≡ ip = ground (arith, there, found, far, e) in
            (
              long,
              (ip_of_iff addr long).0 there,
              (to4_iff long ip).0 (found ∙ ap some same),
              λ here. ground (arith, far, same, (begins_127_iff ip).1 here),
            )
      ]
    ]
  ],
  λ (long, held, v4, outer).
      let there = (ip_of_iff addr long).1 held in
      let found = (to4_iff long ip).1 v4 in
      elim (Bool-cases (begins_127 ip)) [
        | inl near ↦ absurd (outer ((begins_127_iff ip).0 near))
        | inr far ↦ ground (arith, there, found, far)
      ],
)

-- What the loop over addresses gives.
abbrev Answers : List Addr → Option Ip → Type 0
Answers addrs none = All OffersNone addrs
Answers addrs (some ip) = IsFirst addrs ip

Answers-cons :
    (addr : Addr) (addrs : List Addr) (o : Option Ip)
    → OffersNone addr
    → Answers addrs o
    → Answers (addr ∷ addrs) o
Answers-cons addr addrs none n h = (n, h)
Answers-cons addr addrs (some ip) n (before, after, a, e, b, offers) =
    (addr ∷ before, after, a, ap (λ z. addr ∷ z) e, (n, b), offers)

first_ip-Answers : (addrs : List Addr) → Answers addrs (first_ip addrs)
unfolding first_ip
first_ip-Answers [] = tt
first_ip-Answers (addr ∷ addrs) = elim (Option-cases (get_ip_from_addr addr)) [
  | inl missing ↦
      rw (first_ip, missing)
        (Answers-cons addr addrs (first_ip addrs)
          (λ ip offers. ground (arith, missing, (get_ip_from_addr_iff addr ip).1 offers))
          (first_ip-Answers addrs))
  | inr (ip, found) ↦
      rw (first_ip, found) ([], addrs, addr, refl, tt, (get_ip_from_addr_iff addr ip).0 found)
]

first_ip-append :
    (addrs later : List Addr)
    → first_ip (addrs ++ later)
      ≡ elim (first_ip addrs) [ none ↦ first_ip later | some ip ↦ some ip ]
unfolding first_ip
first_ip-append [] later = refl
first_ip-append (addr ∷ addrs) later = ground (arith, first_ip-append addrs later)

ip_from_lem :
    (ifaces : List Interface)
    → All IsListed ifaces
    → ip_from ifaces ≡ ok (first_ip (used_addrs ifaces))
unfolding ip_from first_ip
ip_from_lem [] listed = refl
ip_from_lem (iface ∷ ifaces) (here, listed) = elim (Bool-cases (is_used iface)) [
  | inr unused ↦ ground (arith, unused, ip_from_lem ifaces listed)
  | inl used ↦ elim (Option-cases iface.addrs) [
    | inl failed ↦ absurd (here used failed)
    | inr (addrs, shown) ↦
        ground
          (arith, used, shown, first_ip-append addrs (used_addrs ifaces), ip_from_lem ifaces listed)
  ]
]

-- Where the addresses of the interfaces that are up and not of the loopback network can be listed: the
-- server's address is the IPv4 address, not of 127.0.0.0/8, that is held by the first address of
-- theirs, of either type, in four bytes or in sixteen, that holds one, in dotted form; or none of
-- theirs holds one, and it is the text "<nil>". It is empty if the interfaces cannot be listed.
pub get_server_ip_lem :
    (ifaces : List Interface)
    → All IsListed ifaces
    → (((ip : Ip) × IsFirst (used_addrs ifaces) ip × (get_server_ip (some ifaces) ≡ dotted ip))
        ⊎ (All OffersNone (used_addrs ifaces) × (get_server_ip (some ifaces) ≡ codes "<nil>")))
      × (get_server_ip none ≡ [])
unfolding get_server_ip external_ip ip_string
get_server_ip_lem ifaces listed =
    let taken = ip_from_lem ifaces listed in
    let answers = first_ip-Answers (used_addrs ifaces) in
    (
      elim (Option-cases (first_ip (used_addrs ifaces))) [
        | inl nothing ↦ inr (rw nothing at answers, ground (arith, taken, nothing))
        | inr (ip, found) ↦ inl (ip, rw found at answers, ground (arith, taken, found))
      ],
      refl,
    )
