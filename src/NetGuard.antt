-- ===== src/NetGuard.antt =====
-- src/services/net_guard.rs: the guard on what a worker may connect to. The parser of URLs (url)
-- and the DNS lookup (tokio) are parameters.
pub mod Addresses
pub mod Ranges
pub mod Ranges6
pub mod Egress
mod Tests
use mathlib.Core.List
use openworkers_runner.Common.{
  Bool, List, Option, Result, String, [], err, false, if◌then◌else◌, leb, nat_eq, none, not, ok,
  some, string_eq, true, ◌&&◌, ◌==◌, ◌||◌, ◌∷◌,
}
use openworkers_runner.NetGuard.Addresses.{
  IpAddr, Ipv4Addr, Ipv6Addr, clear_low, is_broadcast, is_documentation, is_link_local, is_loopback,
  is_loopback_v6, is_multicast, is_private, is_unspecified, is_unspecified_v6, to_ipv4_mapped, v4,
  v6,
}

unfoldable pub ipv4_is_public : Ipv4Addr → Bool
ipv4_is_public ip =
    if is_unspecified ip
      || is_loopback ip
      || is_private ip
      || is_link_local ip
      || is_broadcast ip
      || is_documentation ip
    then false
    else if ip.a == 100 && (leb 64 ip.b && leb ip.b 127)
    then false
    else if ip.a == 192 && ip.b == 0 && ip.c == 0
    then false
    else if ip.a == 198 && (ip.b == 18 || ip.b == 19)
    then false
    else if leb 240 ip.a
    then false
    else true

-- The masks `& 0xfe00` and `& 0xffc0` clear the low 9 and 6 bits.
unfoldable pub ipv6_is_public : Ipv6Addr → Bool
ipv6_is_public ip =
    if is_unspecified_v6 ip || is_loopback_v6 ip || is_multicast ip
    then false
    else if clear_low 9 ip.s0 == 0xfc00
    then false
    else if clear_low 6 ip.s0 == 0xfe80
    then false
    else if ip.s0 == 0x2001 && ip.s1 == 0x0db8
    then false
    else true

-- The inner match of `ip_is_public`, on the IPv4 address that `ip` maps.
abbrev pub unwrapped_is_public : Ipv6Addr → Option Ipv4Addr → Bool
unwrapped_is_public ip (some mapped) = ipv4_is_public mapped
unwrapped_is_public ip none = ipv6_is_public ip

unfoldable pub ip_is_public : IpAddr → Bool
ip_is_public (v4 ip) = ipv4_is_public ip
ip_is_public (v6 ip) = unwrapped_is_public ip (to_ipv4_mapped ip)

-- Why a request is refused.
pub data Refusal : Type 0 where
  invalid_url no_host unresolved : Refusal
  blocked : IpAddr → Refusal

-- What the parser says of the host of a URL.
pub data Host : Type 0 where
  ipv4 : Ipv4Addr → Host
  ipv6 : Ipv6Addr → Host
  domain : String → Host

-- The loop of `guard_tcp_host` and of `resolve`.
unfoldable pub check_addrs : List IpAddr → Option Refusal
check_addrs [] = none
check_addrs (addr ∷ rest) =
    if not (ip_is_public addr) then some (blocked addr) else check_addrs rest

module _ (allow_private_network : Bool) where
  -- `guard_url_host`, on the parsed URL: an error of the parser, or its host if it has one.
  unfoldable pub guard_url_host : Option (Option Host) → Option Refusal
  guard_url_host parsed = if allow_private_network then none else elim parsed [
    | none ↦ some invalid_url
    | some none ↦ some no_host
    | some (some (ipv4 ip)) ↦ if not (ip_is_public (v4 ip)) then some (blocked (v4 ip)) else none
    | some (some (ipv6 ip)) ↦ if not (ip_is_public (v6 ip)) then some (blocked (v6 ip)) else none
    | some (some (domain _)) ↦ none
  ]

  -- `guard_tcp_host`, on what the lookup of the host answers.
  unfoldable pub guard_tcp_host : Option (List IpAddr) → Option Refusal
  guard_tcp_host none = if allow_private_network then none else some unresolved
  guard_tcp_host (some addrs) = if allow_private_network then none else check_addrs addrs

-- `FilteringResolver::resolve`, on what the lookup of the name answers.
unfoldable pub resolve : Option (List IpAddr) → Result (List IpAddr) Refusal
resolve none = err unresolved
resolve (some addrs) = elim (check_addrs addrs) [ some refusal ↦ err refusal | none ↦ ok addrs ]

pub data EgressPolicy : Type 0 where
  unrestricted public_only : EgressPolicy

-- The addresses a client connects to: a literal address as it is, a name through its resolver,
-- which is `resolve` in the filtered client and the lookup itself in the other.
unfoldable pub connects :
    EgressPolicy → (String → Option (List IpAddr)) → Host → Result (List IpAddr) Refusal
unfolding resolve
connects policy lookup_host (ipv4 ip) = ok (v4 ip ∷ [])
connects policy lookup_host (ipv6 ip) = ok (v6 ip ∷ [])
connects public_only lookup_host (domain name) = resolve (lookup_host name)
connects unrestricted lookup_host (domain name) = elim (lookup_host name) [
  | some addrs ↦ ok addrs
  | none ↦ err unresolved
]

-- The guard of `do_fetch`, then its client, on the parsed URL.
unfoldable pub do_fetch :
    Bool
    → EgressPolicy
    → (String → Option (List IpAddr))
    → Option (Option Host)
    → Result (List IpAddr) Refusal
unfolding guard_url_host connects
do_fetch allow policy lookup_host none = err invalid_url
do_fetch allow policy lookup_host (some none) = err no_host
do_fetch allow public_only lookup_host (some (some host)) =
    elim (guard_url_host allow (some (some host))) [
      | some refusal ↦ err refusal
      | none ↦ connects public_only lookup_host host
    ]
do_fetch allow unrestricted lookup_host (some (some host)) = connects unrestricted lookup_host host
