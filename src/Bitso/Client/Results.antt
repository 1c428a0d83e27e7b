-- ===== src/Bitso/Client/Results.antt =====
-- What a call of data_server/bitso/client.go returns for an answer of the exchange, and the URL that
-- it calls.
use microservices_trading_bo.Common.{
  ℕ, ◌<◌, ◌≡◌, ◌≢◌, ◌↔◌, refl, sym, ◌∙◌, inl, inr, Text, true, false, List, [], ◌∷◌, ◌++◌, Option,
  text_eq, text_eq_iff, show_nat, Outcome, ok, err, ◌>>=◌, Outcome-cases, >>=-eq-ok, arith,
}
use microservices_trading_bo.Ws.Channel.{Run-cases, done}
use microservices_trading_bo.Bitso.Atoi.{pos, i64_bound, atoi-show_nat}
use microservices_trading_bo.Bitso.Client.{
  Failure, Envelope, Request, Libraries, Client, trim_slashes, set_api_prefix,
}
use microservices_trading_bo.Bitso.Client.Api.{
  World, take_ticket, open_envelope, prepare, do_request,
}

-- The result of a request that was sent.
abbrev pub answer {ℓ} :
    {A : Type ℓ} → Libraries → Request → (Text → Outcome Failure A) → Outcome Failure A
answer lib req read = lib.serve req >>= λ buf. open_envelope lib buf >>= read

envelope-ok :
    (lib : Libraries) (buf opened : Text)
    → open_envelope lib buf ≡ ok opened
    → (env : Envelope) × (lib.decode buf ≡ ok env) × (env.success ≡ true) × (opened ≡ buf)
unfolding open_envelope
envelope-ok lib buf opened e =
    let (env, decoded, chosen) = >>=-eq-ok (lib.decode buf) _ e in
    (env, decoded, ground arith, ground arith)

answer-ok {ℓ} :
    (lib : Libraries) (req : Request) {A : Type ℓ} (read : Text → Outcome Failure A) (a : A)
    → answer lib req read ≡ ok a
    → (buf : Text) × (env : Envelope) × (lib.serve req ≡ ok buf)
      × (lib.decode buf ≡ ok env)
      × (env.success ≡ true)
      × (read buf ≡ ok a)
answer-ok lib req read a e =
    let (buf, served, rest) = >>=-eq-ok (lib.serve req) _ e in
    let (opened, unwrapped, value) = >>=-eq-ok (open_envelope lib buf) read rest in
    let (env, decoded, success, same) = envelope-ok lib buf opened unwrapped in
    (buf, env, served, decoded, success, rw same at value)

module _ {ℓ} (lib : Libraries) {A : Type ℓ} (w w' : World) (method endpoint : Text)
    (params : List (Text × Text)) (body : Option Text) (read : Text → Outcome Failure A)
    (r : Outcome Failure A)
    (ended : do_request lib w method endpoint params body read ≡ done (w', r)) where
  pub result :
      (req : Request) → prepare lib w method endpoint params body ≡ ok req → r ≡ answer lib req read
  unfolding do_request
  result req made = elim (Run-cases (take_ticket w)) [
    | inl (v, taken) ↦ ground (arith, made, taken)
    | inr (inl taken) ↦ absurd (ground (arith, made, taken))
    | inr (inr taken) ↦ absurd (ground (arith, made, taken))
  ]

  was_made :
      (a : A) → r ≡ ok a → (req : Request) × (prepare lib w method endpoint params body ≡ ok req)
  unfolding do_request
  was_made a e = elim (Outcome-cases (prepare lib w method endpoint params body)) [
    | inl made ↦ made
    | inr (inl (f, failed)) ↦ absurd (ground (arith, failed))
    | inr (inr failed) ↦ absurd (ground (arith, failed))
  ]

  -- A call returns a value exactly if its request was made and answered, the envelope of the answer
  -- reports success, and the value is what the payload reads as.
  pub do_request-ok_iff :
      (a : A)
      → (r ≡ ok a) ↔ (
          (req : Request) × (buf : Text) × (env : Envelope) × (prepare lib w method endpoint params
              body
            ≡ ok req)
          × (lib.serve req ≡ ok buf)
          × (lib.decode buf ≡ ok env)
          × (env.success ≡ true)
          × (read buf ≡ ok a))
  unfolding open_envelope
  do_request-ok_iff a = (
    λ e.
        let (req, made) = was_made a e in
        let (buf, env, served, decoded, success, value) =
          answer-ok lib req read a (sym (result req made) ∙ e) in
        (req, buf, env, made, served, decoded, success, value),
    λ (req, buf, env, made, served, decoded, success, value).
        result req made ∙ rw (served, decoded, success) value,
  )

  -- A call whose answer reports an error with a number for its code returns the error with that
  -- number and the message of the answer, whatever else the answer holds.
  pub do_request-api_error :
      (req : Request) (buf message : Text) (n : ℕ)
      → prepare lib w method endpoint params body ≡ ok req
      → lib.serve req ≡ ok buf
      → lib.decode buf ≡ ok (record { success = false; code = show_nat n; message = message })
      → n < i64_bound
      → r ≡ err (Failure.api_error (pos n) message)
  unfolding open_envelope
  do_request-api_error req buf message n made served decoded bound =
      result req made ∙ rw (served, decoded, atoi-show_nat n bound) refl

trim_slashes-slash : (s : Text) → trim_slashes (s ++ b'/' ∷ []) ≡ trim_slashes s
unfolding trim_slashes text_eq
trim_slashes-slash [] = refl
trim_slashes-slash (c ∷ s) = rw (trim_slashes-slash s) refl

trim_slashes_idem : (s : Text) → trim_slashes (trim_slashes s) ≡ trim_slashes s
unfolding trim_slashes
trim_slashes_idem [] = refl
trim_slashes_idem (c ∷ s) = ground (arith, trim_slashes_idem s)

nonempty : (s t : Text) (c : ℕ) → text_eq (s ++ c ∷ t) [] ≡ false
unfolding text_eq
nonempty [] t c = refl
nonempty (a ∷ s) t c = refl

-- A slash at the end of a prefix makes no difference, and to set a prefix that was set changes
-- nothing.
pub set_api_prefix-slash :
    (c : Client) (prefix : Text)
    → prefix ≢ []
    → (set_api_prefix c (prefix ++ b'/' ∷ []) ≡ set_api_prefix c prefix)
      × (set_api_prefix c (set_api_prefix c prefix).api_prefix ≡ set_api_prefix c prefix)
unfolding set_api_prefix
set_api_prefix-slash c prefix n =
    let given : text_eq prefix [] ≡ false = ground (arith, text_eq_iff prefix []) in
    (
      rw (nonempty prefix [] b'/', trim_slashes-slash prefix, given) refl,
      rw
          (
            given,
            nonempty (trim_slashes prefix) [] b'/',
            trim_slashes-slash (trim_slashes prefix),
            trim_slashes_idem prefix,
          )
          refl,
    )
