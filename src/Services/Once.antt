-- ===== src/Services/Once.antt =====
-- The creation of the event of a delivery, beside a concurrent request.
use tci.Prelude.{
  ◌≡◌, refl, Bool, true, false, ◌||◌, Option, none, some, List, [], ◌∷◌, arith, any, find?,
  Option-cases, inl, inr, ◌==◌, nat_eq,
}
use tci.Models.Rows.{RepositoryEvent}
use tci.Session.{Database, Result, ok}
use tci.Persistence.Table.{no_clash, any-find?}
use tci.Persistence.Events.{event_clash, is_delivery}
use tci.Services.Delivery.{create_event_or_get_concurrent_delivery}

any-find?-none :
    (p : RepositoryEvent → Bool) (xs : List RepositoryEvent) → find? p xs ≡ none → any p xs ≡ false
any-find?-none p [] h = refl
any-find?-none p (x ∷ xs) h = ground (arith, any-find?-none p xs)

any_or :
    (f g : RepositoryEvent → Bool) (xs : List RepositoryEvent)
    → any f xs ≡ false
    → any (λ x. f x || g x) xs ≡ any g xs
any_or f g [] h = refl
any_or f g (x ∷ xs) h = ground (arith, any_or f g xs)

-- The event of the draft's delivery.
abbrev pub same_delivery : RepositoryEvent → RepositoryEvent → Bool
same_delivery draft =
    is_delivery draft.connection_id draft.provider_delivery_id
      draft.provider_event_idempotency_source

-- The outcome by the event that the table holds of the delivery.
abbrev pub recorded :
    RepositoryEvent → Database → Option RepositoryEvent → Result (RepositoryEvent × Bool) × Database
recorded draft db none = (ok (draft, true), record db { events = draft ∷ db.events })
recorded draft db (some event) = (ok (event, false), db)

-- On a table that meets its constraints, and for a new id, the creation never raises: an event of
-- the delivery that is there is answered and nothing is written, and otherwise the draft is added.
pub create_event_or_get-recorded :
    (draft : RepositoryEvent) (db : Database)
    → no_clash event_clash db.events ≡ true
    → any (λ e. draft.id == e.id) db.events ≡ false
    → create_event_or_get_concurrent_delivery draft db
      ≡ recorded draft db (find? (same_delivery draft) db.events)
unfolding create_event_or_get_concurrent_delivery no_clash event_clash
create_event_or_get-recorded draft db fine fresh =
    elim (Option-cases (find? (same_delivery draft) db.events)) [
      | inl missing ↦
          rw
            (
              missing,
              any_or (λ e. draft.id == e.id) (same_delivery draft) db.events fresh,
              any-find?-none (same_delivery draft) db.events missing,
              fine,
            )
            refl
      | inr (event, there) ↦
          rw
            (
              any_or (λ e. draft.id == e.id) (same_delivery draft) db.events fresh,
              any-find? (same_delivery draft) db.events event there,
              there,
            )
            refl
    ]
