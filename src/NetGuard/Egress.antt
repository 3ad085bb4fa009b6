-- ===== src/NetGuard/Egress.antt =====
-- src/services/net_guard.rs and `do_fetch` of src/services/fetch.rs: what a request can reach.
use openworkers_runner.Common.{
  Bool-cases, List, Option, Option-cases, String, [], arith, err, false, if◌then◌else◌, inl, inr,
  nat_eq, none, not, ok, refl, some, string_eq, sym, true, ◌↔◌, ◌∷◌, ◌≡◌,
}
use openworkers_runner.Common.Lists.{All}
use openworkers_runner.NetGuard.{
  Host, blocked, check_addrs, connects, do_fetch, domain, guard_url_host, ip_is_public, ipv4, ipv6,
  public_only, resolve,
}
use openworkers_runner.NetGuard.Addresses.{IpAddr, v4, v6}

abbrev pub IsPublic : IpAddr → Type 0
IsPublic addr = ip_is_public addr ≡ true

check_addrs_sound : (addrs : List IpAddr) → check_addrs addrs ≡ none → All IsPublic addrs
unfolding check_addrs
check_addrs_sound [] e = tt
check_addrs_sound (addr ∷ rest) e = elim (Bool-cases (ip_is_public addr)) [
  | inl is_public ↦ (is_public, check_addrs_sound rest (ground arith))
  | inr is_not ↦ absurd (ground arith)
]

check_addrs_complete : (addrs : List IpAddr) → All IsPublic addrs → check_addrs addrs ≡ none
unfolding check_addrs
check_addrs_complete [] all_public = refl
check_addrs_complete (addr ∷ rest) all_public =
    ground (arith, all_public.0, check_addrs_complete rest all_public.1)

-- The resolver answers what the lookup answers, whole, where every address of it is public, and
-- otherwise refuses: no answer is filtered in part.
pub resolve-ok_iff :
    (found addrs : List IpAddr)
    → (resolve (some found) ≡ ok addrs) ↔ ((addrs ≡ found) × All IsPublic found)
unfolding resolve
resolve-ok_iff found addrs = elim (Option-cases (check_addrs found)) [
  | inl passed ↦ (λ e. (ground arith, check_addrs_sound found passed), λ h. ground arith)
  | inr (refusal, e) ↦ (λ h. ground arith, λ h. ground (arith, check_addrs_complete found h.1))
]

literal-IsPublic :
    (addr : IpAddr) (addrs : List IpAddr)
    → (elim (if not (ip_is_public addr) then some (blocked addr) else none) [
      | some refusal ↦ err refusal
      | none ↦ ok (addr ∷ [])
    ])
      ≡ ok addrs
    → All IsPublic addrs
literal-IsPublic addr addrs e = elim (Bool-cases (ip_is_public addr)) [
  | inl is_public ↦ let one : addrs ≡ addr ∷ [] = ground arith in rw one (is_public, tt)
  | inr is_not ↦ absurd (ground arith)
]

-- Where the guard is on, every address that a request with a worker's URL connects to is public,
-- whatever the URL and the DNS answers; the allowed names still go through the resolver.
pub do_fetch-IsPublic :
    (lookup_host : String → Option (List IpAddr)) (parsed : Option (Option Host))
    (addrs : List IpAddr)
    → do_fetch false public_only lookup_host parsed ≡ ok addrs
    → All IsPublic addrs
unfolding do_fetch guard_url_host connects
do_fetch-IsPublic lookup_host none addrs e = absurd (ground arith)
do_fetch-IsPublic lookup_host (some none) addrs e = absurd (ground arith)
do_fetch-IsPublic lookup_host (some (some (ipv4 ip))) addrs e = literal-IsPublic (v4 ip) addrs e
do_fetch-IsPublic lookup_host (some (some (ipv6 ip))) addrs e = literal-IsPublic (v6 ip) addrs e
do_fetch-IsPublic lookup_host (some (some (domain name))) addrs e =
    elim (Option-cases (lookup_host name)) [
      | inl missing ↦ absurd (ground arith)
      | inr (found, e1) ↦
          let answer : resolve (some found) ≡ ok addrs = rw (sym e1) e in
          let checked : (addrs ≡ found) × All IsPublic found =
            (resolve-ok_iff found addrs).0 answer in
          rw checked.0 checked.1
    ]
