-- ===== src/NetGuard/Ranges6.antt =====
-- src/services/net_guard.rs: the tests on the segments of an IPv6 address, against CIDR blocks.
use openworkers_runner.Common.{
  Bool, Bool-cases, List, [], ap, arith, false, if◌then◌else◌, inl, inr, ltb, nat_eq, none, not,
  refl, some, string_eq, true, ℕ, ◌%◌, ◌&&◌, ◌*◌, ◌+◌, ◌-◌, ◌<◌, ◌==◌, ◌^◌, ◌||◌, ◌∙◌, ◌∷◌, ◌≡◌,
  ◌≤◌, ◌⊎◌,
}
use openworkers_runner.Common.Lists.{any}
use openworkers_runner.NetGuard.{ip_is_public, ipv6_is_public, unwrapped_is_public}
use openworkers_runner.NetGuard.Addresses.{
  Ipv6Addr, clear_low, embedded, is_multicast, leading_zeros, to_ipv4_mapped, v6,
}
use openworkers_runner.NetGuard.Ranges.{IsIpv4, blocks, ipv4_is_public-blocks, number, within}

-- The 128-bit number of an address, most significant segment first.
abbrev pub number6 : Ipv6Addr → ℕ
number6 ip =
    ip.s0 * 2 ^ 112
    + ip.s1 * 2 ^ 96
    + ip.s2 * 2 ^ 80
    + ip.s3 * 2 ^ 64
    + ip.s4 * 2 ^ 48
    + ip.s5 * 2 ^ 32
    + ip.s6 * 2 ^ 16
    + ip.s7

abbrev pub IsIpv6 : Ipv6Addr → Type 0
IsIpv6 ip =
    (ip.s0 < 65536)
    × (ip.s1 < 65536)
    × (ip.s2 < 65536)
    × (ip.s3 < 65536)
    × (ip.s4 < 65536)
    × (ip.s5 < 65536)
    × (ip.s6 < 65536)
    × (ip.s7 < 65536)

-- A block, of its first address and its prefix.
abbrev pub cidr6 : ℕ → ℕ → ℕ × ℕ
cidr6 base prefix = (base, base + (2 ^ (128 - prefix) - 1))

-- ::ffff:0:0/96, the IPv4 addresses.
abbrev pub mapped_block : ℕ × ℕ
mapped_block = cidr6 (0xffff * 2 ^ 32) 96

-- ::, ::1, ff00::/8, fc00::/7, fe80::/10 and 2001:db8::/32.
abbrev pub blocks6 : List (ℕ × ℕ)
blocks6 =
    cidr6 0 128
    ∷ cidr6 1 128
    ∷ cidr6 (0xff00 * 2 ^ 112) 8
    ∷ cidr6 (0xfc00 * 2 ^ 112) 7
    ∷ cidr6 (0xfe80 * 2 ^ 112) 10
    ∷ cidr6 (0x2001 * 2 ^ 112 + 0x0db8 * 2 ^ 96) 32
    ∷ []

last_words :
    (z : Bool) (k x y w n : ℕ)
    → (k < 65536) × (x < 65536) × (y < 65536) × (w < 65536)
    → (z ≡ true) ⊎ (2 ^ 48 ≤ n) × (z ≡ false)
    → n % 2 ^ 48 ≡ x * 2 ^ 32 + y * 2 ^ 16 + w
    → (z ≡ true → n < 2 ^ 48)
    → (z && x == 0 && y == 0 && w == k) ≡ within (k, k + (2 ^ 0 - 1)) n
last_words z k x y w n bounds high low small = ground arith

module _ (ip : Ipv6Addr) (h : IsIpv6 ip) where
  zeros_lem : leading_zeros ip ≡ ltb (number6 ip) (2 ^ 48)
  zeros_lem = ground (arith, h.0, h.1, h.2, h.3, h.4, h.5, h.6, h.7)

  low_words : number6 ip % 2 ^ 48 ≡ ip.s5 * 2 ^ 32 + ip.s6 * 2 ^ 16 + ip.s7
  low_words = omega (arith, h.0, h.1, h.2, h.3, h.4, h.5, h.6, h.7)

  last_block6 :
      (k : ℕ)
      → k < 65536
      → (leading_zeros ip && ip.s5 == 0 && ip.s6 == 0 && ip.s7 == k)
        ≡ within (cidr6 k 128) (number6 ip)
  last_block6 k b =
      last_words (leading_zeros ip) k ip.s5 ip.s6 ip.s7 (number6 ip) (b, h.5, h.6, h.7)
        (rw zeros_lem (ground arith)) low_words (λ e. ground (arith, zeros_lem))

  multicast_block6 : is_multicast ip ≡ within (cidr6 (0xff00 * 2 ^ 112) 8) (number6 ip)
  multicast_block6 = ground (arith, h.0, h.1, h.2, h.3, h.4, h.5, h.6, h.7)

  unique_local_block6 :
      (clear_low 9 ip.s0 == 0xfc00) ≡ within (cidr6 (0xfc00 * 2 ^ 112) 7) (number6 ip)
  unique_local_block6 = ground (arith, h.0, h.1, h.2, h.3, h.4, h.5, h.6, h.7)

  link_local_block6 :
      (clear_low 6 ip.s0 == 0xfe80) ≡ within (cidr6 (0xfe80 * 2 ^ 112) 10) (number6 ip)
  link_local_block6 = ground (arith, h.0, h.1, h.2, h.3, h.4, h.5, h.6, h.7)

  documentation_block6 :
      (ip.s0 == 0x2001 && ip.s1 == 0x0db8)
      ≡ within (cidr6 (0x2001 * 2 ^ 112 + 0x0db8 * 2 ^ 96) 32) (number6 ip)
  documentation_block6 = ground (arith, h.0, h.1, h.2, h.3, h.4, h.5, h.6, h.7)

  mapped_lem : (leading_zeros ip && ip.s5 == 0xffff) ≡ within mapped_block (number6 ip)
  mapped_lem = ground (arith, h.0, h.1, h.2, h.3, h.4, h.5, h.6, h.7)

  embedded-IsIpv4 : IsIpv4 (embedded ip)
  embedded-IsIpv4 = omega (arith, h.6, h.7)

  number-embedded :
      within mapped_block (number6 ip) ≡ true → number (embedded ip) ≡ number6 ip - 0xffff * 2 ^ 32
  number-embedded e =
      ground (arith, h.0, h.1, h.2, h.3, h.4, h.5, h.6, h.7, mapped_lem ∙ e, embedded-IsIpv4)

chain6 :
    (u l m s t d w0 w1 w2 w3 w4 w5 : Bool)
    → u ≡ w0
    → l ≡ w1
    → m ≡ w2
    → s ≡ w3
    → t ≡ w4
    → d ≡ w5
    → (if u || l || m
        then false
        else if s
        then false
        else if t
        then false
        else if d
        then false
        else true)
      ≡ not (any (λ w. w) (w0 ∷ w1 ∷ w2 ∷ w3 ∷ w4 ∷ w5 ∷ []))
chain6 u l m s t d w0 w1 w2 w3 w4 w5 e0 e1 e2 e3 e4 e5 = ground arith

pub ipv6_is_public_blocks :
    (ip : Ipv6Addr)
    → IsIpv6 ip
    → ipv6_is_public ip ≡ not (any (λ block. within block (number6 ip)) blocks6)
unfolding ipv6_is_public
ipv6_is_public_blocks ip h =
    chain6 _ _ _ _ _ _ _ _ _ _ _ _ (last_block6 ip h 0 (omega arith))
      (last_block6 ip h 1 (omega arith)) (multicast_block6 ip h) (unique_local_block6 ip h)
      (link_local_block6 ip h) (documentation_block6 ip h)

mapped-eq :
    (ip : Ipv6Addr)
    → IsIpv6 ip
    → to_ipv4_mapped ip ≡ (if within mapped_block (number6 ip) then some (embedded ip) else none)
unfolding to_ipv4_mapped
mapped-eq ip h = ap (λ b. if b then some (embedded ip) else none) (mapped_lem ip h)

-- An IPv6 address of ::ffff:0:0/96 is public exactly where the IPv4 address in its low 32 bits
-- lies in none of the CIDR blocks of `blocks`; any other one, exactly where its 128-bit number
-- lies in none of `blocks6`.
pub ip_is_public-blocks :
    (ip : Ipv6Addr)
    → IsIpv6 ip
    → ip_is_public (v6 ip) ≡ (
        if within mapped_block (number6 ip)
        then not (any (λ block. within block (number6 ip - 0xffff * 2 ^ 32)) blocks)
        else not (any (λ block. within block (number6 ip)) blocks6))
unfolding ip_is_public
ip_is_public-blocks ip h = elim (Bool-cases (within mapped_block (number6 ip))) [
  | inl e ↦
      let is_mapped : to_ipv4_mapped ip ≡ some (embedded ip) = mapped-eq ip h ∙ rw e refl in
      ap (unwrapped_is_public ip) is_mapped
      ∙ ipv4_is_public-blocks (embedded ip) (embedded-IsIpv4 ip h)
      ∙ rw (e, number-embedded ip h e) refl
  | inr e ↦
      let not_mapped : to_ipv4_mapped ip ≡ none = mapped-eq ip h ∙ rw e refl in
      ap (unwrapped_is_public ip) not_mapped ∙ ipv6_is_public_blocks ip h ∙ rw e refl
]
