-- ===== src/Ws/System/Sound.antt =====
-- The invariant of the server: whoever is entered as a user is a connected client that is logged in
-- under that key.
use microservices_trading_bo.Common.{
  ℕ, ◌≤◌, ◌≡◌, ◌≢◌, sym, ◌∙◌, Text, true, List, [], ◌∷◌, some, All, lookup, contains,
}
use microservices_trading_bo.Ws.Client.{Client, Login, client_key, login_key}
use microservices_trading_bo.Ws.Manager.{Manager}
use microservices_trading_bo.Ws.System.Identity.{SameUser, SameUsers, client_key-SameUser}

abbrev pub IsEntry : List ℕ → (ℕ → Client) → Text → ℕ → Type 0
IsEntry clients heap k p =
    (contains p clients ≡ true) × (client_key (heap p) ≡ k) × ((heap p).user_id ≢ [])

abbrev pub IsPending : (ℕ → Client) → Login → Type 0
IsPending heap l = (client_key (heap l.client) ≡ login_key l) × ((heap l.client).user_id ≢ [])

pub record IsSound (m : Manager) : Type 0 where
  pub entries : (k : Text) (p : ℕ) → lookup k m.users ≡ some p → IsEntry m.clients m.heap k p
  pub pending : All (IsPending m.heap) m.login_queue.buffer
  pub unused : (p : ℕ) → m.next ≤ p → (m.heap p).user_id ≡ []

-- No client that is logged in becomes another user.
abbrev pub Keeps : (ℕ → Client) → (ℕ → Client) → Type 0
Keeps h k = (p : ℕ) → (h p).user_id ≢ [] → SameUser (h p) (k p)

pub SameUsers-Keeps : (h k : ℕ → Client) → SameUsers h k → Keeps h k
SameUsers-Keeps h k s p n = s p

pub All-map {ℓ κ} :
    {A : Type ℓ} {P Q : A → Type κ} (f : (a : A) → P a → Q a) (xs : List A) → All P xs → All Q xs
All-map f [] h = tt
All-map f (x ∷ xs) (p, h) = (f x p, All-map f xs h)

pub Keeps-IsPending :
    (h k : ℕ → Client) (ls : List Login) → Keeps h k → All (IsPending h) ls → All (IsPending k) ls
Keeps-IsPending h k ls keep =
    All-map
      (λ l p.
        let same = keep l.client p.1 in
        (client_key-SameUser (h l.client) (k l.client) same ∙ p.0, λ e. p.1 (sym same.1 ∙ e)))
      ls

pub Keeps-IsEntry :
    (cs : List ℕ) (h k : ℕ → Client) (key : Text) (p : ℕ)
    → Keeps h k
    → IsEntry cs h key p
    → IsEntry cs k key p
Keeps-IsEntry cs h k key p keep (c, e, n) =
    let same = keep p n in (c, client_key-SameUser (h p) (k p) same ∙ e, λ f. n (sym same.1 ∙ f))

-- A new heap, with the maps and the login queue as they were.
pub heap-IsSound :
    (m : Manager) (h : ℕ → Client)
    → IsSound m
    → SameUsers m.heap h
    → IsSound (record m { heap = h })
heap-IsSound m h v s = record {
  entries =
      λ k p e. Keeps-IsEntry m.clients m.heap h k p (SameUsers-Keeps m.heap h s) (v.entries k p e);
  pending = Keeps-IsPending m.heap h m.login_queue.buffer (SameUsers-Keeps m.heap h s) v.pending;
  unused = λ p n. (s p).1 ∙ v.unused p n;
}
