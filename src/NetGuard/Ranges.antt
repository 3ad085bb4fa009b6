-- ===== src/NetGuard/Ranges.antt =====
-- src/services/net_guard.rs: the tests on the octets, against the CIDR blocks they stand for, as
-- ranges of the numeric address.
use openworkers_runner.Common.{
  Bool, List, [], arith, false, if◌then◌else◌, leb, nat_eq, not, string_eq, true, ℕ, ◌&&◌, ◌*◌, ◌+◌,
  ◌-◌, ◌<◌, ◌==◌, ◌^◌, ◌||◌, ◌∷◌, ◌≡◌,
}
use openworkers_runner.Common.Lists.{any}
use openworkers_runner.NetGuard.{ipv4_is_public}
use openworkers_runner.NetGuard.Addresses.{
  Ipv4Addr, is_broadcast, is_documentation, is_link_local, is_loopback, is_private, is_unspecified,
}

abbrev pub number : Ipv4Addr → ℕ
number ip = ip.a * 16777216 + ip.b * 65536 + ip.c * 256 + ip.d

-- A block: its first and its last address.
abbrev pub cidr : Ipv4Addr → ℕ → ℕ × ℕ
cidr base prefix = (number base, number base + (2 ^ (32 - prefix) - 1))

abbrev pub dotted : ℕ → ℕ → ℕ → ℕ → Ipv4Addr
dotted a b c d = record { a = a; b = b; c = c; d = d }

abbrev pub within : ℕ × ℕ → ℕ → Bool
within (first, last) n = leb first n && leb n last

-- The blocks that the runner refuses.
abbrev pub blocks : List (ℕ × ℕ)
blocks =
    cidr (dotted 0 0 0 0) 32
    ∷ cidr (dotted 127 0 0 0) 8
    ∷ cidr (dotted 10 0 0 0) 8
    ∷ cidr (dotted 172 16 0 0) 12
    ∷ cidr (dotted 192 168 0 0) 16
    ∷ cidr (dotted 169 254 0 0) 16
    ∷ cidr (dotted 192 0 2 0) 24
    ∷ cidr (dotted 198 51 100 0) 24
    ∷ cidr (dotted 203 0 113 0) 24
    ∷ cidr (dotted 100 64 0 0) 10
    ∷ cidr (dotted 192 0 0 0) 24
    ∷ cidr (dotted 198 18 0 0) 15
    ∷ cidr (dotted 240 0 0 0) 4
    ∷ []

abbrev pub IsIpv4 : Ipv4Addr → Type 0
IsIpv4 ip = (ip.a < 256) × (ip.b < 256) × (ip.c < 256) × (ip.d < 256)

-- One test, or one group of tests, and the blocks it stands for.
module _ (ip : Ipv4Addr) (h : IsIpv4 ip) where
  unspecified_block : is_unspecified ip ≡ within (cidr (dotted 0 0 0 0) 32) (number ip)
  unspecified_block = ground (arith, h.0, h.1, h.2, h.3)

  loopback_block : is_loopback ip ≡ within (cidr (dotted 127 0 0 0) 8) (number ip)
  loopback_block = ground (arith, h.0, h.1, h.2, h.3)

  private_blocks : is_private ip ≡ (
      within (cidr (dotted 10 0 0 0) 8) (number ip)
      || within (cidr (dotted 172 16 0 0) 12) (number ip)
      || within (cidr (dotted 192 168 0 0) 16) (number ip))
  private_blocks = ground (arith, h.0, h.1, h.2, h.3)

  link_local_block : is_link_local ip ≡ within (cidr (dotted 169 254 0 0) 16) (number ip)
  link_local_block = ground (arith, h.0, h.1, h.2, h.3)

  documentation_blocks : is_documentation ip ≡ (
      within (cidr (dotted 192 0 2 0) 24) (number ip)
      || within (cidr (dotted 198 51 100 0) 24) (number ip)
      || within (cidr (dotted 203 0 113 0) 24) (number ip))
  documentation_blocks = ground (arith, h.0, h.1, h.2, h.3)

  shared_block :
      (ip.a == 100 && (leb 64 ip.b && leb ip.b 127))
      ≡ within (cidr (dotted 100 64 0 0) 10) (number ip)
  shared_block = ground (arith, h.0, h.1, h.2, h.3)

  protocol_block :
      (ip.a == 192 && ip.b == 0 && ip.c == 0) ≡ within (cidr (dotted 192 0 0 0) 24) (number ip)
  protocol_block = ground (arith, h.0, h.1, h.2, h.3)

  benchmark_block :
      (ip.a == 198 && (ip.b == 18 || ip.b == 19)) ≡ within (cidr (dotted 198 18 0 0) 15) (number ip)
  benchmark_block = ground (arith, h.0, h.1, h.2, h.3)

  reserved_block :
      (is_broadcast ip || leb 240 ip.a) ≡ within (cidr (dotted 240 0 0 0) 4) (number ip)
  reserved_block = ground (arith, h.0, h.1, h.2, h.3)

-- The chain of early returns, as one disjunction.
chain :
    (u l p k b d s i n r w0 w1 w2 w3 w4 w5 w6 w7 w8 w9 w10 w11 w12 : Bool)
    → u ≡ w0
    → l ≡ w1
    → p ≡ (w2 || w3 || w4)
    → k ≡ w5
    → d ≡ (w6 || w7 || w8)
    → s ≡ w9
    → i ≡ w10
    → n ≡ w11
    → (b || r) ≡ w12
    → (if u || l || p || k || b || d
        then false
        else if s
        then false
        else if i
        then false
        else if n
        then false
        else if r
        then false
        else true)
      ≡ not (any (λ w. w) (w0 ∷ w1 ∷ w2 ∷ w3 ∷ w4 ∷ w5 ∷ w6 ∷ w7 ∷ w8 ∷ w9 ∷ w10 ∷ w11 ∷ w12 ∷ []))
chain u l p k b d s i n r w0 w1 w2 w3 w4 w5 w6 w7 w8 w9 w10 w11 w12 e0 e1 e2 e3 e4 e5 e6 e7 e8 =
    ground arith

-- An IPv4 address is public exactly where its 32-bit number lies in none of the thirteen CIDR
-- blocks of `blocks`.
pub ipv4_is_public-blocks :
    (ip : Ipv4Addr)
    → IsIpv4 ip
    → ipv4_is_public ip ≡ not (any (λ block. within block (number ip)) blocks)
unfolding ipv4_is_public
ipv4_is_public-blocks ip h =
    let in_block : ℕ → ℕ → ℕ → ℕ → ℕ → Bool =
      λ a b c d prefix. within (cidr (dotted a b c d) prefix) (number ip) in
    chain _ _ _ _ (is_broadcast ip) _ _ _ _ (leb 240 ip.a) _ _ (in_block 10 0 0 0 8)
      (in_block 172 16 0 0 12) (in_block 192 168 0 0 16) _ (in_block 192 0 2 0 24)
      (in_block 198 51 100 0 24) (in_block 203 0 113 0 24) _ _ _ _ (unspecified_block ip h)
      (loopback_block ip h) (private_blocks ip h) (link_local_block ip h)
      (documentation_blocks ip h) (shared_block ip h) (protocol_block ip h) (benchmark_block ip h)
      (reserved_block ip h)
