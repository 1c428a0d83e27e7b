-- ===== src/Bitso/Client/Signing.antt =====
-- The requests that data_server/bitso/client.go signs are those that the exchange's scheme accepts.
use microservices_trading_bo.Common.{
  ℕ, ◌≡◌, ◌≢◌, ◌↔◌, refl, Text, codes, Bool, true, false, ◌&&◌, ◌||◌, [], ◌∷◌, ◌++◌, Option, none,
  some, ◌==◌, if◌then◌else◌, text_eq, text_eq_iff, text_eq_refl, show_nat, all_digits,
  all_digits-show_nat, lookup, lookup-insert, ok, err, panics, arith, Bool-cases, Outcome-cases,
  inl, inr,
}
use microservices_trading_bo.Bitso.Client.{
  Request, Libraries, Client, authorization, signed_message, auth_header, read_body, new_request,
  sign, unsigned_request,
}

-- Whether a text holds a code point.
unfoldable pub holds : ℕ → Text → Bool
holds d [] = false
holds d (c ∷ s) = c == d || holds d s

-- A text up to the first `d`, and behind it.
unfoldable pub split_at : ℕ → Text → Text × Text
split_at d [] = ([], [])
split_at d (c ∷ s) =
    let (before, after) = split_at d s in if c == d then ([], s) else (c ∷ before, after)

split_at-append : (d : ℕ) (s t : Text) → holds d s ≡ false → split_at d (s ++ d ∷ t) ≡ (s, t)
unfolding split_at holds
split_at-append d [] t h = ground arith
split_at-append d (c ∷ s) t h = ground (arith, split_at-append d s t)

digits-lack-colon : (s : Text) → all_digits s ≡ true → holds b':' s ≡ false
unfolding holds all_digits
digits-lack-colon [] h = refl
digits-lack-colon (c ∷ s) h = ground (arith, digits-lack-colon s)

-- The exchange's test of a request, for the holder of a key: the header `Authorization` is
-- `Bitso <key>:<nonce>:<signature>`, and the signature is that of the nonce, the method, the path
-- with its query and the body under the key's secret.
unfoldable pub authenticates : Libraries → Text → Text → Request → Bool
unfolding split_at lookup
authenticates lib key secret req = elim (lookup authorization req.headers) [
  | none ↦ false
  | some header ↦ elim (lib.parse req.uri) [
    | ok u ↦
        let (scheme, rest) = split_at b':' header in
        let (nonce, signature) = split_at b':' rest in
        text_eq scheme (codes "Bitso " ++ key)
        && text_eq signature (lib.mac secret (nonce ++ req.method ++ lib.request_uri u ++ req.body))
    | err e ↦ false
    | panics ↦ false
  ]
]

scheme-lacks-colon :
    (key : Text) → holds b':' key ≡ false → holds b':' (codes "Bitso " ++ key) ≡ false
unfolding holds
scheme-lacks-colon key h = ground (arith, h)

header-split :
    (key signature : Text) (nonce : ℕ)
    → holds b':' key ≡ false
    → split_at b':' (auth_header key nonce signature)
      ≡ (codes "Bitso " ++ key, show_nat nonce ++ b':' ∷ signature)
header-split key signature nonce h =
    split_at-append b':' (codes "Bitso " ++ key) (show_nat nonce ++ b':' ∷ signature)
      (scheme-lacks-colon key h)

nonce-split :
    (signature : Text) (nonce : ℕ)
    → split_at b':' (show_nat nonce ++ b':' ∷ signature) ≡ (show_nat nonce, signature)
nonce-split signature nonce =
    split_at-append b':' (show_nat nonce) signature
      (digits-lack-colon (show_nat nonce) (all_digits-show_nat nonce))

module _ (lib : Libraries) where
  made-signed :
      (c : Client) (nonce : ℕ) (method uri : Text) (body : Option Text) (req : Request)
      → text_eq c.key [] && text_eq c.secret [] ≡ false
      → new_request lib c nonce method uri body ≡ ok req
      → (u : lib.Url) × (lib.parse uri ≡ ok u)
        × (req ≡ sign lib c nonce (unsigned_request method uri (read_body body)) u)
  unfolding new_request
  made-signed c nonce method uri body req signed e = elim (Outcome-cases (lib.parse uri)) [
    | inl (u, parsed) ↦ (u, parsed, ground (arith, parsed, signed))
    | inr (inl (f, failed)) ↦ absurd (ground (arith, failed, signed))
    | inr (inr failed) ↦ absurd (ground (arith, failed, signed))
  ]

  signed-authenticates :
      (c : Client) (nonce : ℕ) (req : Request) (u : lib.Url)
      → holds b':' c.key ≡ false
      → lib.parse req.uri ≡ ok u
      → authenticates lib c.key c.secret (sign lib c nonce req u) ≡ true
  unfolding authenticates sign
  signed-authenticates c nonce req u h parsed =
      let signature =
        lib.mac c.secret (signed_message nonce req.method (lib.request_uri u) req.body) in
      ground (
        arith,
        parsed,
        lookup-insert authorization authorization (auth_header c.key nonce signature) req.headers,
        text_eq_refl authorization,
        header-split c.key signature nonce h,
        nonce-split signature nonce,
        text_eq_refl (codes "Bitso " ++ c.key),
        text_eq_refl signature,
      )

  -- A client that has a key or a secret signs: a request that it makes has the method, the URL and the
  -- body that it was asked for, and passes the exchange's test for that key and secret, provided that
  -- the key holds no colon.
  pub new_request-authenticates :
      (c : Client) (nonce : ℕ) (method uri : Text) (body : Option Text) (req : Request)
      → holds b':' c.key ≡ false
      → text_eq c.key [] && text_eq c.secret [] ≡ false
      → new_request lib c nonce method uri body ≡ ok req
      → (authenticates lib c.key c.secret req ≡ true)
        × (req.method ≡ method)
        × (req.uri ≡ uri)
        × (req.body ≡ read_body body)
  unfolding sign
  new_request-authenticates c nonce method uri body req h signed e =
      let (u, parsed, made) = made-signed c nonce method uri body req signed e in
      rw made (
        signed-authenticates c nonce (unsigned_request method uri (read_body body)) u h parsed,
        refl,
        refl,
        refl,
      )

  unsigned-headers :
      (method uri buf : Text)
      → lookup authorization (unsigned_request method uri buf).headers ≡ none
  unfolding lookup text_eq
  unsigned-headers method uri buf = ground arith

  signed-headers :
      (c : Client) (nonce : ℕ) (req : Request) (u : lib.Url)
      → lookup authorization (sign lib c nonce req u).headers ≢ none
  unfolding sign
  signed-headers c nonce req u e =
      let signature =
        lib.mac c.secret (signed_message nonce req.method (lib.request_uri u) req.body) in
      ground (
        arith,
        lookup-insert authorization authorization (auth_header c.key nonce signature) req.headers,
        text_eq_refl authorization,
      )

  -- A request that is made carries no authorization exactly if the client has neither a key nor a
  -- secret.
  pub new_request-unsigned_iff :
      (c : Client) (nonce : ℕ) (method uri : Text) (body : Option Text) (req : Request)
      → new_request lib c nonce method uri body ≡ ok req
      → (lookup authorization req.headers ≡ none) ↔ ((c.key ≡ []) × (c.secret ≡ []))
  unfolding new_request
  new_request-unsigned_iff c nonce method uri body req e =
      elim (Bool-cases (text_eq c.key [] && text_eq c.secret [])) [
        | inl bare ↦ (
          λ _. ground (arith, bare, text_eq_iff c.key [], text_eq_iff c.secret []),
          λ _. ground (arith, bare, unsigned-headers method uri (read_body body)),
        )
        | inr signed ↦
            let (u, _, made) = made-signed c nonce method uri body req signed e in
            (
              λ n. absurd (
                  signed-headers c nonce (unsigned_request method uri (read_body body)) u
                    (rw made at n)),
              λ both. ground (arith, signed, text_eq_iff c.key [], text_eq_iff c.secret []),
            )
      ]
