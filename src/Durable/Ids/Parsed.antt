-- ===== src/Durable/Ids/Parsed.antt =====
-- The ids of src/durable/id.rs, made and parsed.
use openworkers_runner.Common.{
  Bool-cases, List, Option-cases, String, [], ap, arith, inl, inr, nat_eq, nat_eqb, option_eq, refl,
  some, string_eq, suc, sym, true, zero, ℕ, ◌++◌, ◌↔◌, ◌∙◌, ◌∷◌, ◌≡◌,
}
use openworkers_runner.Common.Lists.{
  drop, drop-append, length, length-append, length-drop, length-take, take, take-append,
  take-append-drop,
}
use openworkers_runner.Common.Text.{byte_length, to_ascii_lowercase}
use openworkers_runner.Durable.Ids.{
  from_name, id_label, mac_input, name_label, parse, parse_bytes, part, unique, with_tag,
}
use openworkers_runner.Durable.Ids.Interface.{Bytes, Crates, CratesLaws}

Bytes-append : (xs ys : List ℕ) → Bytes xs → Bytes ys → Bytes (xs ++ ys)
Bytes-append [] ys a b = b
Bytes-append (x ∷ xs) ys a b = (a.0, Bytes-append xs ys a.1 b)

Bytes-take : (n : ℕ) (xs : List ℕ) → Bytes xs → Bytes (take n xs)
Bytes-take zero xs a = tt
Bytes-take (suc n) [] a = tt
Bytes-take (suc n) (x ∷ xs) a = (a.0, Bytes-take n xs a.1)

module _ (crates : Crates) (laws : CratesLaws crates) where
  abbrev tag_of : List ℕ → List ℕ → List ℕ
  tag_of key body = take part (crates.digest key (mac_input id_label body))

  tag_length : (key body : List ℕ) → length (tag_of key body) ≡ 16
  tag_length key body =
      length-take 16 (crates.digest key (mac_input id_label body))
        (omega (arith, laws.digest_length key (mac_input id_label body)))

  id_Bytes : (key body : List ℕ) → Bytes body → Bytes (body ++ tag_of key body)
  id_Bytes key body b = Bytes-append body (tag_of key body) b (
      Bytes-take 16 (crates.digest key (mac_input id_label body))
        (laws.digest_bytes key (mac_input id_label body)))

  id_lower :
      (key body : List ℕ)
      → Bytes body
      → to_ascii_lowercase (with_tag crates key body) ≡ with_tag crates key body
  unfolding with_tag
  id_lower key body b = laws.encode_lower (body ++ tag_of key body) (id_Bytes key body b)

  -- A text that differs from an id in case alone.
  parse_made :
      (key body : List ℕ) (text : String)
      → Bytes body
      → length body ≡ 16
      → to_ascii_lowercase text ≡ with_tag crates key body
      → parse crates key text ≡ some (with_tag crates key body)
  unfolding parse with_tag
  parse_made key body text b sized e =
      let bytes = body ++ tag_of key body in
      let all = id_Bytes key body b in
      let decoded : crates.decode text ≡ some bytes =
        sym (laws.decode_case text) ∙ ap crates.decode e ∙ laws.decode_encode bytes all in
      let long : byte_length text ≡ 64 = omega (
        arith,
        (laws.decoded text bytes decoded).1,
        length-append body (tag_of key body),
        tag_length key body,
      ) in
      let exact : nat_eqb (byte_length text) 64 ≡ true = ground arith in
      let checked : crates.verify_left key (mac_input id_label body) (tag_of key body) ≡ true =
        (laws.verify_left_iff key (mac_input id_label body) (tag_of key body)
            (omega (arith, tag_length key body)) (omega (arith, tag_length key body))).1
          (ap (λ n. take n (crates.digest key (mac_input id_label body)))
            (sym (tag_length key body))) in
      rw
        (
          exact,
          decoded,
          take-append 16 body (tag_of key body) sized,
          drop-append 16 body (tag_of key body) sized,
          checked,
        )
        refl

  parsed_bytes :
      (key : List ℕ) (text id : String) (bytes : List ℕ)
      → byte_length text ≡ 64
      → crates.decode text ≡ some bytes
      → parse_bytes crates key (some bytes) ≡ some id
      → (body : List ℕ) × Bytes body
        × (length body ≡ 16)
        × (with_tag crates key body ≡ id)
        × (to_ascii_lowercase text ≡ id)
  unfolding with_tag
  parsed_bytes key text id bytes long found e =
      let body = take 16 bytes in
      let tag = drop 16 bytes in
      let read = laws.decoded text bytes found in
      let tagged : length tag ≡ 16 = omega (arith, length-drop 16 bytes, read.1) in
      elim (Bool-cases (crates.verify_left key (mac_input id_label body) tag)) [
        | inr refused ↦ absurd (ground arith)
        | inl checked ↦
            let same : tag ≡ tag_of key body =
              (laws.verify_left_iff key (mac_input id_label body) tag (omega arith) (omega arith)).0
                checked
              ∙ ap (λ n. take n (crates.digest key (mac_input id_label body))) tagged in
            let whole : body ++ tag_of key body ≡ bytes =
              ap (λ t. body ++ t) (sym same) ∙ take-append-drop 16 bytes in
            let shown : crates.encode bytes ≡ id = ground arith in
            (
              body,
              Bytes-take 16 bytes read.0,
              length-take 16 bytes (omega (arith, read.1)),
              ap crates.encode whole ∙ shown,
              sym read.2 ∙ shown,
            )
      ]

  parsed :
      (key : List ℕ) (text id : String)
      → parse crates key text ≡ some id
      → (body : List ℕ) × Bytes body
        × (length body ≡ 16)
        × (with_tag crates key body ≡ id)
        × (to_ascii_lowercase text ≡ id)
  unfolding parse with_tag
  parsed key text id e = elim (Bool-cases (nat_eqb (byte_length text) 64)) [
    | inr wrong ↦ absurd (ground arith)
    | inl exact ↦ elim (Option-cases (crates.decode text)) [
      | inl failed ↦ absurd (ground (arith, ap (parse_bytes crates key) failed))
      | inr (bytes, found) ↦
          parsed_bytes key text id bytes (ground arith) found
            (sym (ap (parse_bytes crates key) found) ∙ (rw exact at e))
    ]
  ]

  -- A namespace takes a text for an id exactly if the text is, but for the case of its letters, an
  -- id that the namespace made of 16 bytes, and gives it in lower case.
  pub parse_iff :
      (key : List ℕ) (text id : String)
      → (parse crates key text ≡ some id) ↔ (
          (body : List ℕ) × Bytes body
          × (length body ≡ 16)
          × (with_tag crates key body ≡ id)
          × (to_ascii_lowercase text ≡ id))
  parse_iff key text id = (
    parsed key text id,
    λ made. parse_made key made.0 text made.1 made.2 (made.4 ∙ sym made.3) ∙ ap some made.3,
  )

  -- A namespace takes back its own ids, of names and of uuids (of 16 bytes), as they are.
  pub parse_own :
      (key name uuid : List ℕ)
      → Bytes uuid
      → length uuid ≡ 16
      → (parse crates key (from_name crates key name) ≡ some (from_name crates key name))
        × (parse crates key (unique crates key uuid) ≡ some (unique crates key uuid))
  unfolding from_name unique
  parse_own key name uuid b sized =
      let digest = crates.digest key (mac_input name_label name) in
      let all = Bytes-take 16 digest (laws.digest_bytes key (mac_input name_label name)) in
      let long =
        length-take 16 digest (omega (arith, laws.digest_length key (mac_input name_label name))) in
      (
        parse_made key (take 16 digest) (with_tag crates key (take 16 digest)) all long
            (id_lower key (take 16 digest) all),
        parse_made key uuid (with_tag crates key uuid) b sized (id_lower key uuid b),
      )
