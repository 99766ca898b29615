-- ===== src/Persistence/Cursors/Laws.antt =====
-- What a cursor remembers.
use tci.Prelude.{
  ◌≡◌, refl, Bool, true, not, Option, none, some, List, [], ◌∷◌, String, arith, find?, filter,
  Bool-cases, Option-cases, inl, inr, ◌==◌, nat_eq, string_eq, if◌then◌else◌,
}
use tci.Prelude.Equality.{beq_refl}
use tci.Prelude.Lists.{find?_sound}
use tci.Models.Rows.{Uuid, RepositoryEventCursor}
use tci.Session.{Database, ok}
use tci.Persistence.Table.{update_where, no_clash, find?-update}
use tci.Persistence.Cursors.{
  is_cursor, cursor_clash, flush_cursors, get_cursor, move_to, write_cursor, upsert,
  delete_if_latest_event,
}

-- The cursor that is read, and that it is at the draft's head and event.
abbrev pub IsMovedTo : RepositoryEventCursor → RepositoryEventCursor → Database → Type 0
IsMovedTo draft r db =
    ((get_cursor draft.connection_id draft.target_key db).0 ≡ ok (some r))
    × (r.latest_head_sha ≡ draft.latest_head_sha)
    × (r.latest_event_id ≡ draft.latest_event_id)

finds_itself :
    (draft : RepositoryEventCursor) → is_cursor draft.connection_id draft.target_key draft ≡ true
finds_itself draft = rw (beq_refl draft.connection_id, beq_refl draft.target_key) refl

write-IsMovedTo :
    (draft r : RepositoryEventCursor) (db : Database) (found : Option RepositoryEventCursor)
    → find? (is_cursor draft.connection_id draft.target_key) db.cursors ≡ found
    → (write_cursor draft found db).0 ≡ ok r
    → IsMovedTo draft r (write_cursor draft found db).1
unfolding get_cursor flush_cursors
write-IsMovedTo draft r db none seen h =
    elim (Bool-cases (no_clash cursor_clash (draft ∷ db.cursors))) [
      | inl fine ↦
          let same : r ≡ draft = cc (rw fine at h) in
          rw (fine, same, finds_itself draft) (refl, refl, refl)
      | inr broken ↦ cc (rw broken at h)
    ]
write-IsMovedTo draft r db (some old) seen h =
    elim (Bool-cases (
      no_clash cursor_clash (
        update_where (is_cursor draft.connection_id draft.target_key) (move_to draft)
          db.cursors))) [
            | inl fine ↦
                let same : r ≡ move_to draft old = cc (rw fine at h) in
                rw
                  (
                    fine,
                    same,
                    find?-update (is_cursor draft.connection_id draft.target_key)
                        (is_cursor draft.connection_id draft.target_key) (move_to draft) db.cursors
                        (λ x. refl),
                    seen,
                    find?_sound (is_cursor draft.connection_id draft.target_key) db.cursors old
                        seen,
                  )
                  (refl, refl, refl)
            | inr broken ↦ cc (rw broken at h)
          ]

-- After an upsert that goes through, the cursor that is read for its key is the one that it answered,
-- and stands at the draft's head and event.
pub upsert-get :
    (draft : RepositoryEventCursor) (db : Database) (r : RepositoryEventCursor)
    → (upsert draft db).0 ≡ ok r
    → IsMovedTo draft r (upsert draft db).1
unfolding upsert
upsert-get draft db r =
    write-IsMovedTo draft r db (find? (is_cursor draft.connection_id draft.target_key) db.cursors)
      refl

find?-filter-none :
    (p : RepositoryEventCursor → Bool) (rows : List RepositoryEventCursor)
    → find? p (filter (λ r. not (p r)) rows) ≡ none
find?-filter-none p [] = refl
find?-filter-none p (x ∷ rows) = ground (arith, find?-filter-none p rows)

-- What is left of a cursor once the event's one is deleted.
abbrev pub unless_at : Uuid → Option RepositoryEventCursor → Option RepositoryEventCursor
unless_at event_id none = none
unless_at event_id (some r) = if r.latest_event_id == event_id then none else some r

-- The deletion for an event removes the cursor of the key where it stands at that event, and leaves a
-- cursor that a later event has moved.
pub delete-get :
    (c : Uuid) (key : String) (event_id : Uuid) (db : Database)
    → (get_cursor c key (delete_if_latest_event c key event_id db).1).0
      ≡ ok (unless_at event_id (find? (is_cursor c key) db.cursors))
unfolding delete_if_latest_event get_cursor
delete-get c key event_id db = elim (Option-cases (find? (is_cursor c key) db.cursors)) [
  | inl missing ↦ rw (missing, missing) refl
  | inr (r, seen) ↦ elim (Bool-cases (r.latest_event_id == event_id)) [
    | inl own ↦ rw (seen, own, find?-filter-none (is_cursor c key) db.cursors) refl
    | inr other ↦ rw (seen, other, seen) refl
  ]
]
