-- ===== src/Session/Rules.antt =====
-- Rules for what holds of every answer of an action, and of every database that it leaves.
use tci.Prelude.{◌≡◌, refl, Bool, true, false, if◌then◌else◌}
use tci.Session.{
  Session, Database, Result, ok, err, pure, raise, catch, begin_nested, next_step, ◌>>=◌, Error,
  catch_step, finish, session_scope,
}

-- Every answer satisfies Q, whatever the database.
abbrev pub Answers : {A : Type 0} → (A → Type 0) → Session A → Type 0
Answers {A} Q m = (db : Database) (a : A) → (m db).0 ≡ ok a → Q a

pub Answers-pure : {A : Type 0} (Q : A → Type 0) (a : A) → Q a → Answers Q (pure a)
Answers-pure Q a q db b h = let e : b ≡ a = cc in rw e q

pub Answers-bind :
    {A B : Type 0} (Q : B → Type 0) (m : Session A) (f : A → Session B)
    → ((a : A) → Answers Q (f a))
    → Answers Q (m >>= f)
Answers-bind {A} {B} Q m f each db b = go (m db).0 (m db).1
  where
    go : (r : Result A) (after : Database) → (next_step f r after).0 ≡ ok b → Q b
    go (ok a) after h = each a after b h
    go (err e) after h = cc

pub Answers-then :
    {A B : Type 0} (P : A → Type 0) (Q : B → Type 0) (m : Session A) (f : A → Session B)
    → Answers P m
    → ((a : A) → P a → Answers Q (f a))
    → Answers Q (m >>= f)
Answers-then {A} {B} P Q m f first each db b = go (m db).0 (m db).1 (first db)
  where
    go :
        (r : Result A) (after : Database)
        → ((a : A) → r ≡ ok a → P a)
        → (next_step f r after).0 ≡ ok b
        → Q b
    go (ok a) after known h = each a (known a refl) after b h
    go (err e) after known h = cc

pub Answers-if :
    {A : Type 0} (Q : A → Type 0) (b : Bool) (m k : Session A)
    → Answers Q m
    → Answers Q k
    → Answers Q (if b then m else k)
Answers-if Q true m k hm hk = hm
Answers-if Q false m k hm hk = hk

pub Answers-raise : {A : Type 0} (Q : A → Type 0) (e : Error) → Answers Q (raise {A = A} e)
Answers-raise Q e db a h = cc

pub Answers-scope :
    {A : Type 0} (Q : A → Type 0) (m : Session A) → Answers Q m → Answers Q (session_scope m)
unfolding session_scope
Answers-scope {A} Q m each db b = go (m db) (each db b)
  where
    go : (r : Result A × Database) → (r.0 ≡ ok b → Q b) → (finish db r).0 ≡ ok b → Q b
    go (ok a, after) use_it h = use_it h
    go (err e, after) use_it h = cc

module _ (I : Database → Type 0) where
  -- The invariant holds of the database that the action leaves, whether it returns or raises.
  abbrev pub Preserves : {A : Type 0} → Session A → Type 0
  Preserves m = (db : Database) → I db → I (m db).1

  pub Preserves-bind :
      {A B : Type 0} (m : Session A) (f : A → Session B)
      → Preserves m
      → ((a : A) → Preserves (f a))
      → Preserves (m >>= f)
  Preserves-bind {A} {B} m f km kf db h = go (m db).0 (km db h)
    where
      go : (r : Result A) → I (m db).1 → I (next_step f r (m db).1).1
      go (ok a) k = kf a (m db).1 k
      go (err e) k = k

  pub Preserves-catch :
      {A : Type 0} (m : Session A) (handler : Error → Session A)
      → Preserves m
      → ((e : Error) → Preserves (handler e))
      → Preserves (catch m handler)
  Preserves-catch {A} m handler km kh db h = go (m db).0 (km db h)
    where
      go : (r : Result A) → I (m db).1 → I (catch_step handler r (m db).1).1
      go (ok a) k = k
      go (err e) k = kh e (m db).1 k

  finish-preserves :
      {A : Type 0} (before : Database) (r : Result A × Database)
      → I before
      → I r.1
      → I (finish before r).1
  finish-preserves before (ok a, after) h k = k
  finish-preserves before (err e, after) h k = h

  pub Preserves-nested : {A : Type 0} (m : Session A) → Preserves m → Preserves (begin_nested m)
  unfolding begin_nested
  Preserves-nested m km db h = finish-preserves db (m db) h (km db h)

  pub Preserves-scope : {A : Type 0} (m : Session A) → Preserves m → Preserves (session_scope m)
  unfolding session_scope
  Preserves-scope m km db h = finish-preserves db (m db) h (km db h)

  pub Preserves-if :
      {A : Type 0} (b : Bool) (m k : Session A)
      → Preserves m
      → Preserves k
      → Preserves (if b then m else k)
  Preserves-if true m k hm hk = hm
  Preserves-if false m k hm hk = hk

  -- The step after an action may use what the action answered.
  pub Preserves-after :
      {A B : Type 0} (m : Session A) (f : A → Session B) (db : Database)
      → I (m db).1
      → ((a : A) → (m db).0 ≡ ok a → I (m db).1 → I (f a (m db).1).1)
      → I ((m >>= f) db).1
  Preserves-after {A} {B} m f db k kf = go (m db).0 (λ a e. kf a e k)
    where
      go : (r : Result A) → ((a : A) → r ≡ ok a → I (f a (m db).1).1) → I (next_step f r (m db).1).1
      go (ok a) each = each a refl
      go (err e) each = k

  -- At one database.
  pub scope_at :
      {A : Type 0} (m : Session A) (db : Database) → I db → I (m db).1 → I (session_scope m db).1
  unfolding session_scope
  scope_at m db h k = finish-preserves db (m db) h k

-- What holds of an answer and of the database that the action leaves with it, where the invariant I
-- held before.
module _ (I : Database → Type 0) where
  abbrev pub Ends : {A : Type 0} → (A → Database → Type 0) → Session A → Type 0
  Ends {A} Q m = (db : Database) → I db → (a : A) → (m db).0 ≡ ok a → Q a (m db).1

  pub Ends-bind :
      {A B : Type 0} (Q : B → Database → Type 0) (m : Session A) (f : A → Session B)
      → Preserves I m
      → ((a : A) → Ends Q (f a))
      → Ends Q (m >>= f)
  Ends-bind {A} {B} Q m f km kf db h b = go (m db).0 (km db h)
    where
      go :
          (r : Result A)
          → I (m db).1
          → (next_step f r (m db).1).0 ≡ ok b
          → Q b (next_step f r (m db).1).1
      go (ok a) k e = kf a (m db).1 k b e
      go (err x) k e = cc

  pub Ends-if :
      {A : Type 0} (Q : A → Database → Type 0) (b : Bool) (m k : Session A)
      → Ends Q m
      → Ends Q k
      → Ends Q (if b then m else k)
  Ends-if Q true m k hm hk = hm
  Ends-if Q false m k hm hk = hk

  pub Ends-pure :
      {A : Type 0} (Q : A → Database → Type 0) (a : A)
      → ((db : Database) → Q a db)
      → Ends Q (pure a)
  Ends-pure Q a q db h b e = let same : b ≡ a = cc in rw same (q db)

  pub Ends-catch :
      {A : Type 0} (Q : A → Database → Type 0) (m : Session A) (handler : Error → Session A)
      → Preserves I m
      → Ends Q m
      → ((e : Error) → Ends Q (handler e))
      → Ends Q (catch m handler)
  Ends-catch {A} Q m handler km each handled db h b = go (m db).0 (km db h) (each db h)
    where
      go :
          (r : Result A)
          → I (m db).1
          → ((a : A) → r ≡ ok a → Q a (m db).1)
          → (catch_step handler r (m db).1).0 ≡ ok b
          → Q b (catch_step handler r (m db).1).1
      go (ok a) k known e = let same : b ≡ a = cc in rw same (known a refl)
      go (err x) k known e = handled x (m db).1 k b e

  pub Ends-scope :
      {A : Type 0} (Q : A → Database → Type 0) (m : Session A) → Ends Q m → Ends Q (session_scope m)
  unfolding session_scope
  Ends-scope {A} Q m each db h b = go (m db) (each db h)
    where
      go :
          (r : Result A × Database)
          → ((a : A) → r.0 ≡ ok a → Q a r.1)
          → (finish db r).0 ≡ ok b
          → Q b (finish db r).1
      go (ok a, after) known e = known b e
      go (err x, after) known e = cc

  pub Ends-raise : {A : Type 0} (Q : A → Database → Type 0) (x : Error) → Ends Q (raise {A = A} x)
  Ends-raise Q x db h a e = cc

-- What holds after a first action is what the second starts from.
pub Ends-then :
    {A B : Type 0} (I : Database → Type 0) (P : A → Database → Type 0) (Q : B → Database → Type 0)
    (m : Session A) (f : A → Session B)
    → Ends I P m
    → ((a : A) → Ends (P a) Q (f a))
    → Ends I Q (m >>= f)
Ends-then {A} {B} I P Q m f first each db h b = go (m db).0 (first db h)
  where
    go :
        (r : Result A)
        → ((a : A) → r ≡ ok a → P a (m db).1)
        → (next_step f r (m db).1).0 ≡ ok b
        → Q b (next_step f r (m db).1).1
    go (ok a) known e = each a (m db).1 (known a refl) b e
    go (err x) known e = cc
