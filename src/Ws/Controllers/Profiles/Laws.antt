-- ===== src/Ws/Controllers/Profiles/Laws.antt =====
-- When a profile is written, and a publication.
use microservices_trading_bo.Common.{
  ℕ, ◌≡◌, ◌↔◌, refl, Bool, if◌then◌else◌, ◌∙◌, ap, Text, codes, true, false, List, Option, none,
  some, lookup, ok, arith, Outcome-cases, inl, inr,
}
use microservices_trading_bo.Ws.Client.{Message}
use microservices_trading_bo.Ws.Manager.{Manager}
use microservices_trading_bo.Ws.Process.{Disposal}
use microservices_trading_bo.Ws.Controllers.{Backend, Value, Document, as_text}
use microservices_trading_bo.Ws.Controllers.Profiles.{
  Accounts, update_profile, edit_profile_controller, create_marketplace_publication_controller,
}

-- A chain that wrote something had the value that it asked for.
wrote {ℓ} :
    {Reply Record : Type 0} {A : Type ℓ} (o : Option A) (stop : Disposal Reply)
    (next : A → Disposal Reply × Option Record) {changed : Record}
    → (let r : Disposal Reply × Option Record = elim o [ none ↦ (stop, none) | some a ↦ next a ] in
        r.1 ≡ some changed)
    → (a : A) × (o ≡ some a) × ((next a).1 ≡ some changed)
wrote none stop next e = absurd cc
wrote (some a) stop next e = (a, refl, e)

wrote_if :
    {Reply Record : Type 0} (b : Bool) (stop : Disposal Reply)
    (next : Disposal Reply × Option Record) {changed : Record}
    → (if b then next else (stop, none)).1 ≡ some changed
    → (b ≡ true) × (next.1 ≡ some changed)
wrote_if true stop next e = (refl, e)
wrote_if false stop next e = absurd cc

module _ {Reply : Type 0} (backend : Backend Reply) (accounts : Accounts Reply) where
  -- What the code asks of a request to change a profile into `changed`, the user's name with it.
  abbrev pub IsEdit : Message → Text × accounts.Account → Type 0
  IsEdit message changed =
      (fields : List (Text × Value)) × (user : accounts.Account) × (display_name bio avatar : Text)
      × (accounts.decode_profile message ≡ some (some fields))
      × (backend.connect ≡ true)
      × (as_text (lookup (codes "username") fields) ≡ some changed.0)
      × (accounts.find_by_username changed.0 ≡ some user)
      × (as_text (lookup (codes "displayName") fields) ≡ some display_name)
      × (as_text (lookup (codes "bio") fields) ≡ some bio)
      × (as_text (lookup (codes "avatarUrl") fields) ≡ some avatar)
      × (changed.1 ≡ accounts.with_profile user display_name bio avatar)

  module _ (m : Manager) (p : ℕ) (seq icmd : Text) (message : Message) where
    edits :
        (changed : Text × accounts.Account)
        → IsEdit message changed
        → (edit_profile_controller backend accounts m p seq icmd message).1 ≡ some changed
    unfolding edit_profile_controller update_profile
    edits (username, changed) (fields, user, display_name, bio, avatar, d, c, u, f, n, b, a, e) =
        ground (arith, d, c, u, f, n, b, a, e)

    asked :
        (changed : Text × accounts.Account)
        → (edit_profile_controller backend accounts m p seq icmd message).1 ≡ some changed
        → IsEdit message changed
    unfolding edit_profile_controller update_profile
    asked changed e =
        let (request, d, e1) = wrote (accounts.decode_profile message) _ _ e in
        let (c, e2) = wrote_if backend.connect _ _ e1 in
        let (fields, r, e3) = wrote request _ _ e2 in
        let (username, u, e4) = wrote (as_text (lookup (codes "username") fields)) _ _ e3 in
        let (user, f, e5) = wrote (accounts.find_by_username username) _ _ e4 in
        let (display_name, n, e6) = wrote (as_text (lookup (codes "displayName") fields)) _ _ e5 in
        let (bio, b, e7) = wrote (as_text (lookup (codes "bio") fields)) _ _ e6 in
        let (avatar, a, e8) = wrote (as_text (lookup (codes "avatarUrl") fields)) _ _ e7 in
        (
          fields,
          user,
          display_name,
          bio,
          avatar,
          d ∙ ap some r,
          c,
          ground (arith, u, e8),
          ground (arith, f, e8),
          n,
          b,
          a,
          ground (arith, e8),
        )

    -- A profile is handed to the database exactly if the request is an object with the name of a user that
    -- is known and the three strings of the profile, and the database is there: what is handed
    -- over is that user with the three strings set, under the same name.
    pub edit_profile_controller-writes_iff :
        (changed : Text × accounts.Account)
        → ((edit_profile_controller backend accounts m p seq icmd message).1 ≡ some changed)
          ↔ IsEdit message changed
    edit_profile_controller-writes_iff changed = (asked changed, edits changed)

    -- A publication is handed to the database exactly if the request is read and is valid and the
    -- database is there.
    pub create_marketplace_publication_controller-writes :
        (publication : accounts.Publication)
        → ((create_marketplace_publication_controller backend accounts m p seq icmd message).1
            ≡ some publication)
          ↔ ((request : Document) × (backend.decode_map message ≡ some request)
              × (accounts.validate request ≡ ok publication)
              × (backend.connect ≡ true))
    unfolding create_marketplace_publication_controller
    create_marketplace_publication_controller-writes publication = (
      λ e.
          let (request, d, e1) = wrote (backend.decode_map message) _ _ e in
          elim (Outcome-cases (accounts.validate request)) [
            | inl (valid, v) ↦ (request, d, ground (arith, v, e1), ground (arith, v, e1))
            | inr (inl (fault, v)) ↦ absurd (ground (arith, v, e1))
            | inr (inr v) ↦ absurd (ground (arith, v, e1))
          ],
      λ w. ground (arith, w),
    )
