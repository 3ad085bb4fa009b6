-- ===== src/Ingress/Routes.antt =====
-- src/ingress.rs, `worker_route`: which worker a host names.
use openworkers_runner.Common.{
  Bool, List, Option-cases, String, [], ap, arith, eq_iff, false, if◌then◌else◌, inl, inr, nat_eq,
  option_eq, some, string_eq, true, ◌∙◌, ◌∷◌, ◌≡◌,
}
use openworkers_runner.Common.Lists.{contains}
use openworkers_runner.Common.Text.{
  append, contains_code, is_empty_text, strip_suffix, strip_suffix_lem,
}
use openworkers_runner.Ingress.Names.{named, then_suffix, under_domain, worker_route}

-- A host that is a label under one of the domains.
abbrev pub IsUnder : String → String → List String → Type 0
IsUnder label host domains =
    (domain : String) × (contains domain domains ≡ true) × (host ≡ append (append label ".") domain)

then_suffix_lem :
    (domain host label : String)
    → then_suffix "." (strip_suffix domain host) ≡ some label
    → host ≡ append (append label ".") domain
then_suffix_lem domain host label e = elim (Option-cases (strip_suffix domain host)) [
  | inl missing ↦ absurd (ground arith)
  | inr (dotted, found) ↦
      let cut : strip_suffix "." dotted ≡ some label = ground arith in
      strip_suffix_lem domain host dotted found
      ∙ ap (λ t. append t domain) (strip_suffix_lem "." dotted label cut)
]

under_domain_lem :
    (host label : String) (domains : List String)
    → under_domain host domains ≡ some label
    → IsUnder label host domains
unfolding under_domain
under_domain_lem host label [] e = absurd (ground arith)
under_domain_lem host label (domain ∷ rest) e =
    elim (Option-cases (then_suffix "." (strip_suffix domain host))) [
      | inl other ↦
          let later : under_domain host rest ≡ some label = ground arith in
          let (d, member, same) = under_domain_lem host label rest later in (d, ground arith, same)
      | inr (label', hit) ↦
          let same : label' ≡ label = ground arith in
          (
            domain,
            ground (arith, eq_iff domain domain),
            then_suffix_lem domain host label (hit ∙ ap some same),
          )
    ]

-- Where `worker_route` names a worker, the host is `{name}.{domain}` for one of the worker
-- domains, the name is one label that is not empty, and it is given as x-worker-id exactly where
-- it is a UUID, else as x-worker-name.
pub worker_route_lem :
    (is_uuid : String → Bool) (host : String) (domains : List String) (header name : String)
    → worker_route is_uuid host domains ≡ some (header, name)
    → IsUnder name host domains
      × (is_empty_text name ≡ false)
      × (contains_code b'.' name ≡ false)
      × (header ≡ (if is_uuid name then "x-worker-id" else "x-worker-name"))
unfolding worker_route named
worker_route_lem is_uuid host domains header name e =
    elim (Option-cases (under_domain host domains)) [
      | inl missing ↦ absurd (ground arith)
      | inr (label, under) ↦
          let same : label ≡ name = ground arith in
          (
            under_domain_lem host name domains (under ∙ ap some same),
            ground arith,
            ground arith,
            ground arith,
          )
    ]
