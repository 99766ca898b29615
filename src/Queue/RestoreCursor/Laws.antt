-- ===== src/Queue/RestoreCursor/Laws.antt =====
-- Where a cursor stands after a failure.
use tci.Prelude.{
  ◌≡◌, refl, true, false, Option, none, some, String, find?, arith, Bool-cases, inl, inr, ◌==◌,
  nat_eq, string_eq, option_eq, List, [], ◌∷◌, filter, order_by, Bool, not, ◌&&◌, ◌⊎◌, any, is_some,
}
use tci.Prelude.Equality.{beq_refl}
use tci.Prelude.Lists.{find?_sound, any-order_by, any-filter}
use tci.Models.Enums.Types.{ProcessingDecision, EventProcessingStatus}
use tci.Models.Enums.Equality.{processing_decision_eq, processing_status_eq}
use tci.Models.Rows.{Uuid, Instant, RepositoryEvent, RepositoryEventCursor}
use tci.Session.{Database, Result, ok, err, next_step, pure}
use tci.Persistence.Cursors.{upsert, get_cursor, delete_if_latest_event, is_cursor}
use tci.Persistence.Cursors.Laws.{upsert-get, delete-get, unless_at}
use tci.Queue.RestoreCursor.{
  restore_event_cursor, move_cursor, fallback_cursor, is_fallback, newest_event_first, head_text,
}

-- An event that a cursor may stand at after the failure: another event of the same connection and
-- key with a head, which was queued with a run and has not failed.
abbrev pub may_stand : Uuid → RepositoryEvent → RepositoryEvent → Bool
may_stand c failed e =
    e.connection_id == c
    && (not (e.id == failed.id)
        && e.target_key == failed.target_key
        && is_some e.target_head_sha
        && e.processing_decision == ProcessingDecision.queued
        && not (e.processing_status == EventProcessingStatus.failed)
        && is_some e.sync_run_id)

-- The cursor stands at the event and its head.
abbrev pub stands_at : RepositoryEventCursor → RepositoryEvent → Bool
stands_at r e = r.latest_event_id == e.id && e.target_head_sha == some r.latest_head_sha

-- What the restore makes of the cursor of the failed event's key. Where an event of the table may
-- take its place, the cursor stands at such an event and not at the failed one. Where there is none,
-- the cursor that was there is left, unless it stood at the failed event.
abbrev pub IsRestored : Uuid → RepositoryEvent → Database → Option RepositoryEventCursor → Type 0
IsRestored c failed before after =
    ((r : RepositoryEventCursor) × (after ≡ some r)
      × (any (λ e. may_stand c failed e && stands_at r e) before.events ≡ true)
      × ((r.latest_event_id == failed.id) ≡ false))
    ⊎ ((any (may_stand c failed) before.events ≡ false)
        × (after ≡ unless_at failed.id (find? (is_cursor c failed.target_key) before.cursors)))

find?-any :
    {A : Type 0} (p q : A → Bool) (xs : List A) (a : A)
    → find? p xs ≡ some a
    → q a ≡ true
    → any (λ x. p x && q x) xs ≡ true
find?-any p q [] a h k = cc
find?-any p q (x ∷ xs) a h k = elim (Bool-cases (p x)) [
  | inl hit ↦ let same : x ≡ a = ground (arith, h, hit) in rw (hit, same, k) refl
  | inr miss ↦ rw (miss, find?-any p q xs a (ground (arith, h, miss)) k) refl
]

find?-none-any : {A : Type 0} (p : A → Bool) (xs : List A) → find? p xs ≡ none → any p xs ≡ false
find?-none-any p [] h = refl
find?-none-any p (x ∷ xs) h = ground (arith, find?-none-any p xs)

-- A search in the listing of the events of a connection, told of the table.
any-listed :
    (c : Uuid) (p : RepositoryEvent → Bool) (events : List RepositoryEvent)
    → any p (order_by newest_event_first (filter (λ e. e.connection_id == c) events))
      ≡ any (λ e. e.connection_id == c && p e) events
any-listed c p events =
    rw
      (
        any-order_by p newest_event_first (filter (λ e. e.connection_id == c) events),
        any-filter p (λ e. e.connection_id == c) events,
      )
      refl

any-same : {A : Type 0} (p q : A → Bool) (xs : List A) → ((a : A) → p a ≡ q a) → any p xs ≡ any q xs
any-same p q [] same = refl
any-same p q (x ∷ xs) same = rw (same x, any-same p q xs same) refl

and_assoc : (a b c : Bool) → (a && (b && c)) ≡ ((a && b) && c)
and_assoc true b c = refl
and_assoc false b c = refl

head_kept : (sha : Option String) → is_some sha ≡ true → (sha == some (head_text sha)) ≡ true
head_kept none h = cc
head_kept (some sha) h = beq_refl sha

module _ (i c : Uuid) (failed : RepositoryEvent) (at : Instant) (db : Database) where
  abbrev listed : List RepositoryEvent
  listed = order_by newest_event_first (filter (λ e. e.connection_id == c) db.events)

  moved-IsRestored :
      (e : RepositoryEvent)
      → find? (is_fallback failed) listed ≡ some e
      → (move_cursor i c failed at (some e) db).0 ≡ ok tt
      → IsRestored c failed db
          (find? (is_cursor c failed.target_key) (move_cursor i c failed at (some e) db).1.cursors)
  unfolding get_cursor
  moved-IsRestored e seen h = go (upsert (fallback_cursor i c failed at e) db).0 refl h
    where
      fits : is_fallback failed e ≡ true
      fits = find?_sound (is_fallback failed) listed e seen

      same_key : e.target_key ≡ failed.target_key
      same_key = (string_eq.test_iff e.target_key failed.target_key).0 (ground (arith, fits))

      has_head : (e.target_head_sha == some (head_text e.target_head_sha)) ≡ true
      has_head = head_kept e.target_head_sha (ground (arith, fits))

      other : (e.id == failed.id) ≡ false
      other = ground (arith, fits)

      among :
          (r : RepositoryEventCursor)
          → stands_at r e ≡ true
          → any (λ x. may_stand c failed x && stands_at r x) db.events ≡ true
      among r stands =
          let listed_one : any (λ x. is_fallback failed x && stands_at r x) listed ≡ true =
            find?-any (is_fallback failed) (stands_at r) listed e seen stands in
          rw
            (
              ← any-same (λ x. x.connection_id == c && (is_fallback failed x && stands_at r x))
                  (λ x. may_stand c failed x && stands_at r x) db.events
                  (λ x. and_assoc (x.connection_id == c) (is_fallback failed x) (stands_at r x)),
              ← any-listed c (λ x. is_fallback failed x && stands_at r x) db.events,
            )
            listed_one

      go :
          (r : Result RepositoryEventCursor)
          → (upsert (fallback_cursor i c failed at e) db).0 ≡ r
          → (next_step (λ _. pure tt) r (upsert (fallback_cursor i c failed at e) db).1).0 ≡ ok tt
          → IsRestored c failed db (
              find?
                (is_cursor c failed.target_key)
                (next_step
                  (λ _. pure tt)
                  r
                  (upsert (fallback_cursor i c failed at e) db).1).1.cursors)
      go (ok r) done k =
          let moved = upsert-get (fallback_cursor i c failed at e) db r done in
          let found : find? (is_cursor c e.target_key)
                (upsert (fallback_cursor i c failed at e) db).1.cursors
              ≡ some r =
            cc (moved.0) in
          let stands : stands_at r e ≡ true = rw (moved.1, moved.2, beq_refl e.id) has_head in
          inl (r, rw (← same_key) found, among r stands, rw (moved.2) other)
      go (err x) done k = cc

  left-IsRestored :
      find? (is_fallback failed) listed ≡ none
      → IsRestored c failed db (
          find?
            (is_cursor c failed.target_key)
            (delete_if_latest_event c failed.target_key failed.id db).1.cursors)
  unfolding get_cursor
  left-IsRestored missing =
      let left : find? (is_cursor c failed.target_key)
            (delete_if_latest_event c failed.target_key failed.id db).1.cursors
          ≡ unless_at failed.id (find? (is_cursor c failed.target_key) db.cursors) =
        cc (delete-get c failed.target_key failed.id db) in
      inr (
        rw (← any-listed c (is_fallback failed) db.events)
            (find?-none-any (is_fallback failed) listed missing),
        left,
      )

  -- Where the restore goes through, the cursor of the failed event's key stands at another event of
  -- the connection and the key that was queued with a run and has not failed, and at its head. Where
  -- no event is of that kind, a cursor that stood at the failed event goes, and any other is left.
  pub restore_event_cursor-IsRestored :
      (restore_event_cursor i c failed at db).0 ≡ ok tt
      → IsRestored c failed db
          (find? (is_cursor c failed.target_key) (restore_event_cursor i c failed at db).1.cursors)
  unfolding restore_event_cursor
  restore_event_cursor-IsRestored h = go (find? (is_fallback failed) listed) refl h
    where
      go :
          (found : Option RepositoryEvent)
          → find? (is_fallback failed) listed ≡ found
          → (move_cursor i c failed at found db).0 ≡ ok tt
          → IsRestored c failed db
              (find? (is_cursor c failed.target_key) (move_cursor i c failed at found db).1.cursors)
      go none seen k = left-IsRestored seen
      go (some e) seen k = moved-IsRestored e seen k
