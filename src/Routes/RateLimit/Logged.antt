-- ===== src/Routes/RateLimit/Logged.antt =====
-- The limiter holds no times but those of requests that it has admitted.
use tci.Prelude.{
  ℕ, Bool, true, ◌&&◌, List, [], ◌∷◌, ◌++◌, String, EqTest, ◌==◌, string_eq, nat_eq, All, any,
  length, refl, ◌≡◌, arith, Bool-cases, leb, inl, inr, Option, none, some,
}
use tci.Prelude.Equality.{beq_refl}
use tci.Routes.RateLimit.Dictionary.{
  ConnectionKey, connection_key_eq, Buckets, bucket, put_bucket, pop_bucket, move_to_end,
}
use tci.Routes.RateLimit.{
  RateLimiter, allow_gitlab_webhook_request, max_requests, max_source_requests,
  max_connection_buckets, prune_request_times, prune_buckets, note_request, with_connection_bucket,
  check_connection_bucket, with_source_bucket, check_source_bucket, is_expired, is_empty,
}
use tci.Routes.RateLimit.Reached.{RateRequest, Reached, admit}

All-prune_times :
    (P : ℕ → Type 0) (now : ℕ) (ts : List ℕ) → All P ts → All P (prune_request_times now ts)
unfolding prune_request_times
All-prune_times P now [] h = tt
All-prune_times P now (t ∷ ts) h = elim (Bool-cases (is_expired now t)) [
  | inl e ↦ rw e (All-prune_times P now ts h.1)
  | inr e ↦ rw e h
]

All-append : (P : ℕ → Type 0) (t : ℕ) (ts : List ℕ) → All P ts → P t → All P (ts ++ t ∷ [])
All-append P t [] h p = (p, tt)
All-append P t (u ∷ ts) h p = (h.0, All-append P t ts h.1 p)

All-map : (P Q : ℕ → Type 0) (ts : List ℕ) → ((t : ℕ) → P t → Q t) → All P ts → All Q ts
All-map P Q [] f h = tt
All-map P Q (t ∷ ts) f h = (f t h.0, All-map P Q ts f h.1)

module _ {K : Type 0} ⦃eq : EqTest K⦄ (key_of : RateRequest → K) where
  -- A request of the key was admitted at the time.
  abbrev pub IsLogged : List RateRequest → K → ℕ → Type 0
  IsLogged log k t = any (λ q. key_of q == k && q.at == t) log ≡ true

  abbrev pub IsFrom : List RateRequest → Buckets K → Type 0
  IsFrom log bs = All (λ b. All (IsLogged log b.0) b.1) bs

  IsFrom-put :
      (log : List RateRequest) (k : K) (ts : List ℕ) (bs : Buckets K)
      → All (IsLogged log k) ts
      → IsFrom log bs
      → IsFrom log (put_bucket k ts bs)
  IsFrom-put log k ts [] g h = (g, tt)
  IsFrom-put log k ts ((j, us) ∷ bs) g h = elim (Bool-cases (j == k)) [
    | inl y ↦ rw y (g, h.1)
    | inr y ↦ rw y (h.0, IsFrom-put log k ts bs g h.1)
  ]

  IsFrom-pop :
      (log : List RateRequest) (k : K) (bs : Buckets K)
      → IsFrom log bs
      → IsFrom log (pop_bucket k bs)
  IsFrom-pop log k [] h = tt
  IsFrom-pop log k ((j, us) ∷ bs) h = elim (Bool-cases (j == k)) [
    | inl y ↦ rw y h.1
    | inr y ↦ rw y (h.0, IsFrom-pop log k bs h.1)
  ]

  IsFrom-prune :
      (log : List RateRequest) (now : ℕ) (bs : Buckets K)
      → IsFrom log bs
      → IsFrom log (prune_buckets now bs)
  unfolding prune_buckets
  IsFrom-prune log now [] h = tt
  IsFrom-prune log now ((k, ts) ∷ bs) h =
      elim (Bool-cases (is_empty (prune_request_times now ts))) [
        | inl y ↦ rw y (IsFrom-prune log now bs h.1)
        | inr y ↦ rw y (All-prune_times (IsLogged log k) now ts h.0, IsFrom-prune log now bs h.1)
      ]

  pub IsFrom-bucket :
      (log : List RateRequest) (k : K) (bs : Buckets K) (ts : List ℕ)
      → IsFrom log bs
      → bucket k bs ≡ some ts
      → All (IsLogged log k) ts
  IsFrom-bucket log k [] ts h e = cc
  IsFrom-bucket log k ((j, us) ∷ bs) ts h e = elim (Bool-cases (j == k)) [
    | inl y ↦
        let same : us ≡ ts = ground (arith, e, y) in
        let key : j ≡ k = (eq.test_iff j k).0 y in rw (← same, ← key) h.0
    | inr y ↦ IsFrom-bucket log k bs ts h.1 (ground (arith, e, y))
  ]

  IsLogged-later :
      (r : RateRequest) (log : List RateRequest) (k : K) (t : ℕ)
      → IsLogged log k t
      → IsLogged (r ∷ log) k t
  IsLogged-later r log k t h = ground (arith, h)

  IsFrom-later :
      (r : RateRequest) (log : List RateRequest) (bs : Buckets K)
      → IsFrom log bs
      → IsFrom (r ∷ log) bs
  IsFrom-later r log [] h = tt
  IsFrom-later r log ((k, ts) ∷ bs) h = (
    All-map (IsLogged log k) (IsLogged (r ∷ log) k) ts (IsLogged-later r log k) h.0,
    IsFrom-later r log bs h.1,
  )

  -- The admitted request is appended to the bucket of its key.
  IsFrom-admit :
      (r : RateRequest) (log : List RateRequest) (ts : List ℕ) (bs : Buckets K)
      → All (IsLogged log (key_of r)) ts
      → IsFrom log bs
      → IsFrom (r ∷ log) (put_bucket (key_of r) (ts ++ r.at ∷ []) bs)
  IsFrom-admit r log ts bs g h =
      IsFrom-put (r ∷ log) (key_of r) (ts ++ r.at ∷ []) bs
        (All-append (IsLogged (r ∷ log) (key_of r)) r.at ts
          (All-map (IsLogged log (key_of r)) (IsLogged (r ∷ log) (key_of r)) ts
            (IsLogged-later r log (key_of r)) g)
          (rw (beq_refl (key_of r), beq_refl r.at) refl))
        (IsFrom-later r log bs h)

abbrev pub source_of : RateRequest → String
source_of q = q.source

abbrev pub connection_of : RateRequest → ConnectionKey
connection_of q = (q.source, q.connection_id)

pub record Logged (s : RateLimiter) (log : List RateRequest) : Type 0 where
  pub by_source : IsFrom source_of log s.source_request_times
  pub by_connection : IsFrom connection_of log s.connection_request_times

module _ (r : RateRequest) (log : List RateRequest) where
  -- What holds after the answer `b`.
  abbrev After : Bool × RateLimiter → Type 0
  After (b, s) = Logged s (admit r log b)

  Logged-note :
      (source_times times : List ℕ) (s : RateLimiter)
      → Logged s log
      → All (IsLogged source_of log r.source) source_times
      → All (IsLogged connection_of log (connection_of r)) times
      → After (note_request r.at r.source (connection_of r) source_times times s)
  Logged-note source_times times s h gs gc = record {
    by_source = IsFrom-admit source_of r log source_times s.source_request_times gs h.by_source;
    by_connection =
        IsFrom-admit connection_of r log times s.connection_request_times gc h.by_connection;
  }

  Logged-with_connection :
      (source_times times : List ℕ) (s : RateLimiter)
      → Logged s log
      → All (IsLogged source_of log r.source) source_times
      → All (IsLogged connection_of log (connection_of r)) times
      → After (with_connection_bucket r.at r.source (connection_of r) source_times times s)
  Logged-with_connection source_times times s h gs gc =
      elim (Bool-cases (leb max_requests (length times))) [
        | inl e ↦ rw e h
        | inr e ↦ rw e (Logged-note source_times times s h gs gc)
      ]

  Logged-check_connection :
      (source_times : List ℕ) (found : Option (List ℕ)) (s : RateLimiter)
      → Logged s log
      → All (IsLogged source_of log r.source) source_times
      → bucket (connection_of r) s.connection_request_times ≡ found
      → After (check_connection_bucket r.at r.source (connection_of r) source_times found s)
  Logged-check_connection source_times none s h gs e =
      elim (Bool-cases (leb max_connection_buckets (length pruned))) [
        | inl full ↦ rw full record { by_source = h.by_source; by_connection = kept }
        | inr room ↦ rw room (
            Logged-with_connection source_times []
              record s { connection_request_times = put_bucket (connection_of r) [] pruned }
              record {
                by_source = h.by_source;
                by_connection = IsFrom-put connection_of log (connection_of r) [] pruned tt kept;
              }
              gs tt)
      ]
    where
      pruned : Buckets ConnectionKey
      pruned = prune_buckets r.at s.connection_request_times

      kept : IsFrom connection_of log pruned
      kept = IsFrom-prune connection_of log r.at s.connection_request_times h.by_connection
  Logged-check_connection source_times (some times) s h gs e =
      Logged-with_connection source_times (prune_request_times r.at times)
        record s {
          connection_request_times =
              move_to_end (connection_of r) (prune_request_times r.at times)
                s.connection_request_times;
        }
        record {
          by_source = h.by_source;
          by_connection =
              IsFrom-put connection_of log (connection_of r) (prune_request_times r.at times)
                (pop_bucket (connection_of r) s.connection_request_times) own
                (IsFrom-pop connection_of log (connection_of r) s.connection_request_times
                  h.by_connection);
        }
        gs own
    where
      own : All (IsLogged connection_of log (connection_of r)) (prune_request_times r.at times)
      own = All-prune_times (IsLogged connection_of log (connection_of r)) r.at times (
          IsFrom-bucket connection_of log (connection_of r) s.connection_request_times times
            h.by_connection e)

  Logged-with_source :
      (source_times : List ℕ) (s : RateLimiter)
      → Logged s log
      → All (IsLogged source_of log r.source) source_times
      → After (with_source_bucket r.at r.connection_id r.source source_times s)
  Logged-with_source source_times s h gs =
      elim (Bool-cases (leb max_source_requests (length source_times))) [
        | inl e ↦ rw e h
        | inr e ↦ rw e (Logged-check_connection source_times _ s h gs refl)
      ]

  Logged-check_source :
      (found : Option (List ℕ)) (s : RateLimiter)
      → Logged s log
      → bucket r.source s.source_request_times ≡ found
      → After (check_source_bucket r.at r.connection_id r.source found s)
  Logged-check_source none s h e =
      Logged-with_source []
        record s {
          source_request_times = put_bucket r.source [] (prune_buckets r.at s.source_request_times);
        }
        record {
          by_source =
              IsFrom-put source_of log r.source [] (prune_buckets r.at s.source_request_times) tt
                (IsFrom-prune source_of log r.at s.source_request_times h.by_source);
          by_connection = h.by_connection;
        }
        tt
  Logged-check_source (some times) s h e =
      Logged-with_source (prune_request_times r.at times)
        record s {
          source_request_times =
              put_bucket r.source (prune_request_times r.at times) s.source_request_times;
        }
        record {
          by_source =
              IsFrom-put source_of log r.source (prune_request_times r.at times)
                s.source_request_times own h.by_source;
          by_connection = h.by_connection;
        }
        own
    where
      own : All (IsLogged source_of log r.source) (prune_request_times r.at times)
      own =
          All-prune_times (IsLogged source_of log r.source) r.at times
            (IsFrom-bucket source_of log r.source s.source_request_times times h.by_source e)

pub Logged-Reached :
    {s : RateLimiter} {log : List RateRequest} {now : ℕ} → Reached s log now → Logged s log
unfolding allow_gitlab_webhook_request
Logged-Reached Reached.start = record { by_source = tt; by_connection = tt }
Logged-Reached (Reached.request r {s} {log} {now} before l) =
    Logged-check_source r log (bucket r.source s.source_request_times) s (Logged-Reached before)
      refl
