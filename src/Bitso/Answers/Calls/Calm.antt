-- ===== src/Bitso/Answers/Calls/Calm.antt =====
-- A call whose libraries give values or errors does the same, and what is decoded has a property.
use microservices_trading_bo.Common.{
  ◌≡◌, ◌≢◌, sym, none, codes, Text, List, [], ◌∷◌, Outcome, ok, err, panics, arith, Outcome-cases,
  inl, inr, subst,
}
use microservices_trading_bo.Ws.Channel.{done}
use microservices_trading_bo.Bitso.Json.{Error}
use microservices_trading_bo.Bitso.Value.{Value, Setter, on_field}
use microservices_trading_bo.Bitso.Value.Laws.{
  Holds, Holds-intro, Holds->>=, Anything, Keeps, Keeps-set_struct, Keeps-on_field,
}
use microservices_trading_bo.Bitso.Client.{Failure, Request, Libraries}
use microservices_trading_bo.Bitso.Client.Api.{
  World, prepare, open_envelope, do_request, get_response,
}
use microservices_trading_bo.Bitso.Client.Results.{answer, result}
use microservices_trading_bo.Bitso.Client.Endpoints.{Reader}
use microservices_trading_bo.Bitso.Answers.{Dynamic}
use microservices_trading_bo.Bitso.Answers.Calls.{Parsing, as_failure, wrapped, read_payload}

-- What the libraries are documented to do: they give a value or an error.
pub record IsCalm (lib : Libraries) (p : Parsing) (dyn : Dynamic) : Type 0 where
  pub serve : (req : Request) → lib.serve req ≢ panics
  pub decode : (buf : Text) → lib.decode buf ≢ panics
  pub parse : (buf : Text) → p.parse buf ≢ panics
  pub set_any : (a : dyn.Any) (v : Value) → dyn.set_any a v ≢ panics

-- What a reader gives.
abbrev pub Gives : {A : Type 0} → (A → Type 0) → Reader A → Type 0
Gives P read = (buf : Text) → Holds P (read buf)

Holds-as_failure :
    {A : Type 0} (P : A → Type 0) (p : Parsing) (o : Outcome Error A)
    → Holds P o
    → Holds P (as_failure p o)
Holds-as_failure P p (ok b) h = h
Holds-as_failure P p (err f) h = tt
Holds-as_failure P p panics h = h

pub Keeps-wrapped :
    {A : Type 0} (P : A → Type 0) (name : Text) (set : Setter A)
    → Keeps P set
    → Keeps P (wrapped name set)
Keeps-wrapped P name set keeps =
    Keeps-set_struct P ((name, on_field (λ a. a) (λ _ x. x) set) ∷ [])
      (Keeps-on_field P P (λ a. a) (λ _ x. x) set (λ s p. p) (λ s a p q. q) keeps, tt)

module _ (lib : Libraries) (p : Parsing) (dyn : Dynamic) (calm : IsCalm lib p dyn) where
  pub Gives-read_payload :
      {A : Type 0} (P : A → Type 0) (zero_value : A) (set : Setter A)
      → P zero_value
      → Keeps P set
      → Gives P (read_payload p zero_value set)
  unfolding read_payload
  Gives-read_payload P zero_value set z keeps buf =
      Holds->>= Anything P (p.parse buf) _
        (Holds-intro Anything (p.parse buf) (calm.parse buf) (λ _ _. tt))
        (λ v _. Holds-as_failure P p _ (Keeps-wrapped P (codes "payload") set keeps zero_value v z))

  open_envelope-Anything : (buf : Text) → Holds Anything (open_envelope lib buf)
  unfolding open_envelope
  open_envelope-Anything buf =
      Holds->>= Anything Anything (lib.decode buf) _
        (Holds-intro Anything (lib.decode buf) (calm.decode buf) (λ _ _. tt))
        (λ env _. Holds-intro Anything _ (λ e. ground (arith, e)) (λ _ _. tt))

  Gives-answer :
      {A : Type 0} (P : A → Type 0) (req : Request) (read : Reader A)
      → Gives P read
      → Holds P (answer lib req read)
  Gives-answer P req read gives =
      Holds->>= Anything P (lib.serve req) _
        (Holds-intro Anything (lib.serve req) (calm.serve req) (λ _ _. tt))
        (λ buf _.
          Holds->>= Anything P (open_envelope lib buf) read (open_envelope-Anything buf)
            (λ opened _. gives opened))

  pub Gives-get_response :
      {A : Type 0} (P : A → Type 0) (w : World) (endpoint : Text) (params : List (Text × Text))
      (read : Reader A) (w' : World) (x : Outcome Failure A)
      → Gives P read
      → get_response lib w endpoint params read ≡ done (w', x)
      → Holds P x
  unfolding get_response do_request
  Gives-get_response P w endpoint params read w' x gives e =
      elim (Outcome-cases (prepare lib w (codes "GET") endpoint params none)) [
        | inl (req, made) ↦
            let same = result lib w w' (codes "GET") endpoint params none read x e req made in
            subst (Holds P) (sym same) (Gives-answer P req read gives)
        | inr (inl (fault, failed)) ↦
            let same : err fault ≡ x = ground (arith, failed, e) in subst (Holds P) same tt
        | inr (inr failed) ↦ absurd (ground (arith, failed, e))
      ]
