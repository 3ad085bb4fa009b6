-- ===== src/NetGuard/Addresses.antt =====
-- The addresses of Rust's std::net and the predicates that src/services/net_guard.rs takes from
-- it, by their documentation.
use openworkers_runner.Common.{
  Bool, Option, if◌then◌else◌, leb, nat_eq, none, some, string_eq, ℕ, ◌%◌, ◌&&◌, ◌*◌, ◌/◌, ◌==◌,
  ◌^◌, ◌||◌,
}

-- The octets of an address, and the segments of an IPv6 address, in order.
pub record Ipv4Addr : Type 0 where
  pub a : ℕ
  pub b : ℕ
  pub c : ℕ
  pub d : ℕ

pub record Ipv6Addr : Type 0 where
  pub s0 : ℕ
  pub s1 : ℕ
  pub s2 : ℕ
  pub s3 : ℕ
  pub s4 : ℕ
  pub s5 : ℕ
  pub s6 : ℕ
  pub s7 : ℕ

pub data IpAddr : Type 0 where
  v4 : Ipv4Addr → IpAddr
  v6 : Ipv6Addr → IpAddr

-- A word less its low bits.
abbrev pub clear_low : ℕ → ℕ → ℕ
clear_low bits word = word / 2 ^ bits * 2 ^ bits

-- 0.0.0.0
abbrev pub is_unspecified : Ipv4Addr → Bool
is_unspecified ip = ip.a == 0 && ip.b == 0 && ip.c == 0 && ip.d == 0

-- 127.0.0.0/8
abbrev pub is_loopback : Ipv4Addr → Bool
is_loopback ip = ip.a == 127

-- 10.0.0.0/8, 172.16.0.0/12, 192.168.0.0/16
abbrev pub is_private : Ipv4Addr → Bool
is_private ip =
    ip.a == 10 || (ip.a == 172 && (leb 16 ip.b && leb ip.b 31)) || (ip.a == 192 && ip.b == 168)

-- 169.254.0.0/16
abbrev pub is_link_local : Ipv4Addr → Bool
is_link_local ip = ip.a == 169 && ip.b == 254

-- 255.255.255.255
abbrev pub is_broadcast : Ipv4Addr → Bool
is_broadcast ip = ip.a == 255 && ip.b == 255 && ip.c == 255 && ip.d == 255

-- 192.0.2.0/24, 198.51.100.0/24, 203.0.113.0/24
abbrev pub is_documentation : Ipv4Addr → Bool
is_documentation ip =
    (ip.a == 192 && ip.b == 0 && ip.c == 2)
    || (ip.a == 198 && ip.b == 51 && ip.c == 100)
    || (ip.a == 203 && ip.b == 0 && ip.c == 113)

abbrev pub leading_zeros : Ipv6Addr → Bool
leading_zeros ip = ip.s0 == 0 && ip.s1 == 0 && ip.s2 == 0 && ip.s3 == 0 && ip.s4 == 0

-- ::
abbrev pub is_unspecified_v6 : Ipv6Addr → Bool
is_unspecified_v6 ip = leading_zeros ip && ip.s5 == 0 && ip.s6 == 0 && ip.s7 == 0

-- ::1
abbrev pub is_loopback_v6 : Ipv6Addr → Bool
is_loopback_v6 ip = leading_zeros ip && ip.s5 == 0 && ip.s6 == 0 && ip.s7 == 1

-- ff00::/8
abbrev pub is_multicast : Ipv6Addr → Bool
is_multicast ip = clear_low 8 ip.s0 == 0xff00

-- ::ffff:a.b.c.d
abbrev pub embedded : Ipv6Addr → Ipv4Addr
embedded ip = record { a = ip.s6 / 256; b = ip.s6 % 256; c = ip.s7 / 256; d = ip.s7 % 256 }

unfoldable pub to_ipv4_mapped : Ipv6Addr → Option Ipv4Addr
to_ipv4_mapped ip = if leading_zeros ip && ip.s5 == 0xffff then some (embedded ip) else none
