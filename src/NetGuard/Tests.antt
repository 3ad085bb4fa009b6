-- ===== src/NetGuard/Tests.antt =====
-- The addresses of the tests of src/services/net_guard.rs, and what the theorems say of some.
use openworkers_runner.Common.{
  List, Option, String, [], arith, false, if◌then◌else◌, nat_eq, not, ok, refl, some, string_eq,
  true, ℕ, ◌*◌, ◌-◌, ◌==◌, ◌^◌, ◌↔◌, ◌∷◌, ◌≡◌,
}
use openworkers_runner.Common.Lists.{All, any}
use openworkers_runner.NetGuard.{
  check_addrs, connects, do_fetch, domain, guard_url_host, ip_is_public, ipv4_is_public, resolve,
}
use openworkers_runner.NetGuard.Addresses.{IpAddr, Ipv4Addr, Ipv6Addr, to_ipv4_mapped, v4, v6}
use openworkers_runner.NetGuard.Ranges.{blocks, dotted, ipv4_is_public-blocks, number, within}
use openworkers_runner.NetGuard.Ranges6.{blocks6, ip_is_public-blocks, mapped_block, number6}
use openworkers_runner.NetGuard.Egress.{IsPublic, do_fetch-IsPublic, resolve-ok_iff}

abbrev metadata : Ipv4Addr
metadata = dotted 169 254 169 254

abbrev google : Ipv4Addr
google = dotted 8 8 8 8

abbrev mapped : ℕ → ℕ → Ipv6Addr
mapped high low = record {
  s0 = 0;
  s1 = 0;
  s2 = 0;
  s3 = 0;
  s4 = 0;
  s5 = 0xffff;
  s6 = high;
  s7 = low;
}

abbrev unique_local : Ipv6Addr
unique_local = record { s0 = 0xfd12; s1 = 0x3456; s2 = 0; s3 = 0; s4 = 0; s5 = 0; s6 = 0; s7 = 1 }

abbrev refused : List Ipv4Addr
refused =
    dotted 0 0 0 0
    ∷ dotted 127 0 0 1
    ∷ dotted 10 0 0 5
    ∷ dotted 172 31 255 255
    ∷ metadata
    ∷ dotted 100 64 0 1
    ∷ dotted 192 0 0 1
    ∷ dotted 198 18 0 1
    ∷ dotted 255 255 255 255
    ∷ []

rejects_ipv4_non_public_ranges : any ipv4_is_public refused ≡ false
unfolding ipv4_is_public
rejects_ipv4_non_public_ranges = refl

unwraps_ipv4_mapped_ipv6 :
    (ip_is_public (v6 (mapped 0x7f00 1)) ≡ false) × (ip_is_public (v6 (mapped 0x808 0x808)) ≡ true)
unfolding ip_is_public to_ipv4_mapped ipv4_is_public
unwraps_ipv4_mapped_ipv6 = (refl, refl)

ipv4_is_public-blocks_example :
    ipv4_is_public metadata ≡ not (any (λ block. within block (number metadata)) blocks)
ipv4_is_public-blocks_example = ipv4_is_public-blocks metadata (omega arith)

ip_is_public-blocks_example : ip_is_public (v6 unique_local) ≡ (
    if within mapped_block (number6 unique_local)
    then not (any (λ block. within block (number6 unique_local - 0xffff * 2 ^ 32)) blocks)
    else not (any (λ block. within block (number6 unique_local)) blocks6))
ip_is_public-blocks_example = ip_is_public-blocks unique_local (omega arith)

abbrev names : String → Option (List IpAddr)
names name = if name == "dns.google" then some (v4 google ∷ []) else some (v4 metadata ∷ [])

resolve-ok_iff_example : (resolve (some (v4 google ∷ v4 metadata ∷ [])) ≡ ok (v4 google ∷ [])) ↔ (
    (v4 google ∷ [] ≡ v4 google ∷ v4 metadata ∷ []) × All IsPublic (v4 google ∷ v4 metadata ∷ []))
resolve-ok_iff_example = resolve-ok_iff (v4 google ∷ v4 metadata ∷ []) (v4 google ∷ [])

do_fetch-IsPublic_example : All IsPublic (v4 google ∷ [])
unfolding do_fetch guard_url_host connects resolve check_addrs ip_is_public ipv4_is_public
do_fetch-IsPublic_example =
    do_fetch-IsPublic names (some (some (domain "dns.google"))) (v4 google ∷ []) refl
