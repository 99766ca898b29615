-- ===== src/Routes/RateLimit/Invariant.antt =====
-- What the limiter's two dictionaries keep, request by request.
use tci.Prelude.{
  ℕ, ◌≤◌, Bool, List, [], ◌∷◌, ◌++◌, String, EqTest, string_eq, nat_eq, length, refl, ap, ◌≡◌,
  arith, ◌<◌, Bool-cases, leb, inl, inr, Option, none, some,
}
use tci.Prelude.Equality.{beq_refl}
use tci.Routes.RateLimit.Dictionary.{
  ConnectionKey, connection_key_eq, Buckets, bucket, put_bucket, pop_bucket, move_to_end,
}
use tci.Routes.RateLimit.{
  RateLimiter, allow_gitlab_webhook_request, max_requests, max_source_requests,
  max_connection_buckets, prune_request_times, prune_buckets, note_request, with_connection_bucket,
  new_connection_bucket, old_connection_bucket, check_connection_bucket, with_source_bucket,
  check_source_bucket,
}
use tci.Routes.RateLimit.Fits.{
  bucket-put, Each-bucket, Fits, live, Fits-later, Fits-prune, Fits-put, Fits-move, times_of,
  live-prune, prune-IsBucket, IsBucket,
}
use tci.Routes.RateLimit.Reached.{
  RateRequest, Reached, is_of_source, is_of_connection, count_live, asked, admit,
}
use tci.Routes.RateLimit.Admit.{
  Fits-admit, length-put, length-put-le, length-move-le, length-prune_buckets-le,
}

pub record Keeps (s : RateLimiter) (log : List RateRequest) (now : ℕ) : Type 0 where
  pub by_source :
      Fits max_source_requests now s.source_request_times (λ k n. count_live (is_of_source k) n log)
  pub by_connection :
      Fits max_requests now s.connection_request_times
        (λ k n. count_live (is_of_connection k) n log)
  pub few_buckets : length s.connection_request_times ≤ max_connection_buckets

put-found :
    {K : Type 0} ⦃eq : EqTest K⦄ (k : K) (ts : List ℕ) (bs : Buckets K)
    → bucket k (put_bucket k ts bs) ≡ some ts
put-found k ts bs = rw (bucket-put k k ts bs, beq_refl k) refl

module _ (r : RateRequest) (log : List RateRequest) where
  -- What is kept after the answer `b`.
  abbrev Kept : Bool × RateLimiter → Type 0
  Kept (b, s) = Keeps s (admit r log b) r.at

  abbrev key : ConnectionKey
  key = (r.source, r.connection_id)

  -- The time has come forward to that of the request.
  Keeps-later : (s : RateLimiter) (now : ℕ) → now ≤ r.at → Keeps s log now → Keeps s log r.at
  Keeps-later s now l h = record {
    by_source = Fits-later max_source_requests now s.source_request_times _ h.by_source r.at l;
    by_connection = Fits-later max_requests now s.connection_request_times _ h.by_connection r.at l;
    few_buckets = h.few_buckets;
  }

  Kept-note_request :
      (source_times times : List ℕ) (s : RateLimiter)
      → Keeps s log r.at
      → bucket r.source s.source_request_times ≡ some source_times
      → bucket key s.connection_request_times ≡ some times
      → length source_times < max_source_requests
      → length times < max_requests
      → Kept (note_request r.at r.source key source_times times s)
  Kept-note_request source_times times s h es ec ls lc = record {
    by_source =
        Fits-admit (λ q. q.source) max_source_requests s.source_request_times r log source_times
          h.by_source es ls;
    by_connection =
        Fits-admit (λ q. (q.source, q.connection_id)) max_requests s.connection_request_times r log
          times h.by_connection ec lc;
    few_buckets =
        rw (length-put key (times ++ r.at ∷ []) times s.connection_request_times ec) h.few_buckets;
  }

  Kept-with_connection_bucket :
      (source_times times : List ℕ) (s : RateLimiter)
      → Keeps s log r.at
      → bucket r.source s.source_request_times ≡ some source_times
      → bucket key s.connection_request_times ≡ some times
      → length source_times < max_source_requests
      → Kept (with_connection_bucket r.at r.source key source_times times s)
  Kept-with_connection_bucket source_times times s h es ec ls =
      elim (Bool-cases (leb max_requests (length times))) [
        | inl e ↦ rw e h
        | inr e ↦ rw e (Kept-note_request source_times times s h es ec ls (ground (arith, e)))
      ]

  Kept-new_connection_bucket :
      (source_times : List ℕ) (s : RateLimiter)
      → Keeps s log r.at
      → bucket r.source s.source_request_times ≡ some source_times
      → bucket key s.connection_request_times ≡ none
      → length source_times < max_source_requests
      → Kept (new_connection_bucket r.at r.source key source_times s)
  Kept-new_connection_bucket source_times s h es ec ls =
      elim (Bool-cases (leb max_connection_buckets (length pruned))) [
        | inl e ↦ rw e record {
          by_source = h.by_source;
          by_connection = pruned_fits;
          few_buckets =
              omega (arith, h.few_buckets, length-prune_buckets-le r.at s.connection_request_times);
        }
        | inr e ↦ rw e (
            Kept-with_connection_bucket source_times []
              record s { connection_request_times = put_bucket key [] pruned }
              record {
                by_source = h.by_source;
                by_connection =
                    Fits-put max_requests r.at pruned _ pruned_fits key [] _
                      record { is_short = omega arith; is_past = tt } (λ n l. none_live n l)
                      (λ j n _. omega arith);
                few_buckets =
                    let few : length pruned < max_connection_buckets = ground (arith, e) in
                    omega (arith, few, length-put-le key [] pruned);
              }
              es (put-found key [] pruned) ls)
      ]
    where
      pruned : Buckets ConnectionKey
      pruned = prune_buckets r.at s.connection_request_times

      pruned_fits : Fits max_requests r.at pruned (λ k n. count_live (is_of_connection k) n log)
      pruned_fits = Fits-prune max_requests r.at s.connection_request_times _ h.by_connection

      none_live : (n : ℕ) → r.at ≤ n → count_live (is_of_connection key) n log ≤ 0
      none_live n l =
          let same : times_of key s.connection_request_times ≡ [] = rw ec refl in
          rw (← ap (live n) same) (h.by_connection.tracked key n l)

  Kept-old_connection_bucket :
      (source_times times : List ℕ) (s : RateLimiter)
      → Keeps s log r.at
      → bucket r.source s.source_request_times ≡ some source_times
      → bucket key s.connection_request_times ≡ some times
      → length source_times < max_source_requests
      → Kept (old_connection_bucket r.at r.source key source_times times s)
  Kept-old_connection_bucket source_times times s h es ec ls =
      Kept-with_connection_bucket source_times (prune_request_times r.at times)
        record s {
          connection_request_times =
              move_to_end key (prune_request_times r.at times) s.connection_request_times;
        }
        record {
          by_source = h.by_source;
          by_connection =
              Fits-move max_requests r.at s.connection_request_times _ h.by_connection key
                (prune_request_times r.at times)
                (prune-IsBucket max_requests r.at r.at times (
                  Each-bucket (IsBucket max_requests r.at) key s.connection_request_times times
                    h.by_connection.each ec))
                tracked;
          few_buckets = omega (
            arith,
            h.few_buckets,
            length-move-le key (prune_request_times r.at times) times s.connection_request_times ec,
          );
        }
        es
        (put-found key (prune_request_times r.at times) (pop_bucket key s.connection_request_times))
        ls
    where
      tracked :
          (n : ℕ)
          → r.at ≤ n
          → count_live (is_of_connection key) n log ≤ live n (prune_request_times r.at times)
      tracked n l =
          let same : times_of key s.connection_request_times ≡ times = rw ec refl in
          rw (live-prune r.at n times l, ← same) (h.by_connection.tracked key n l)

  Kept-check_connection_bucket :
      (source_times : List ℕ) (found : Option (List ℕ)) (s : RateLimiter)
      → Keeps s log r.at
      → bucket r.source s.source_request_times ≡ some source_times
      → bucket key s.connection_request_times ≡ found
      → length source_times < max_source_requests
      → Kept (check_connection_bucket r.at r.source key source_times found s)
  Kept-check_connection_bucket source_times none s = Kept-new_connection_bucket source_times s
  Kept-check_connection_bucket source_times (some times) s =
      Kept-old_connection_bucket source_times times s

  Kept-with_source_bucket :
      (source_times : List ℕ) (s : RateLimiter)
      → Keeps s log r.at
      → bucket r.source s.source_request_times ≡ some source_times
      → Kept (with_source_bucket r.at r.connection_id r.source source_times s)
  Kept-with_source_bucket source_times s h es =
      elim (Bool-cases (leb max_source_requests (length source_times))) [
        | inl e ↦ rw e h
        | inr e ↦ rw e (Kept-check_connection_bucket source_times _ s h es refl (ground (arith, e)))
      ]

  Kept-check_source_bucket :
      (found : Option (List ℕ)) (s : RateLimiter)
      → Keeps s log r.at
      → bucket r.source s.source_request_times ≡ found
      → Kept (check_source_bucket r.at r.connection_id r.source found s)
  Kept-check_source_bucket none s h e =
      Kept-with_source_bucket [] record s { source_request_times = put_bucket r.source [] pruned }
        record {
          by_source =
              Fits-put max_source_requests r.at pruned _
                (Fits-prune max_source_requests r.at s.source_request_times _ h.by_source) r.source
                [] _ record { is_short = omega arith; is_past = tt } none_live
                (λ j n _. omega arith);
          by_connection = h.by_connection;
          few_buckets = h.few_buckets;
        }
        (put-found r.source [] pruned)
    where
      pruned : Buckets String
      pruned = prune_buckets r.at s.source_request_times

      none_live : (n : ℕ) → r.at ≤ n → count_live (is_of_source r.source) n log ≤ 0
      none_live n l =
          let same : times_of r.source s.source_request_times ≡ [] = rw e refl in
          rw (← ap (live n) same) (h.by_source.tracked r.source n l)
  Kept-check_source_bucket (some times) s h e =
      Kept-with_source_bucket pruned
        record s { source_request_times = put_bucket r.source pruned s.source_request_times }
        record {
          by_source =
              Fits-put max_source_requests r.at s.source_request_times _ h.by_source r.source pruned
                _
                (prune-IsBucket max_source_requests r.at r.at times (
                  Each-bucket (IsBucket max_source_requests r.at) r.source s.source_request_times
                    times h.by_source.each e))
                tracked (λ j n _. omega arith);
          by_connection = h.by_connection;
          few_buckets = h.few_buckets;
        }
        (put-found r.source pruned s.source_request_times)
    where
      pruned : List ℕ
      pruned = prune_request_times r.at times

      tracked : (n : ℕ) → r.at ≤ n → count_live (is_of_source r.source) n log ≤ live n pruned
      tracked n l =
          let same : times_of r.source s.source_request_times ≡ times = rw e refl in
          rw (live-prune r.at n times l, ← same) (h.by_source.tracked r.source n l)

  Keeps-asked :
      (s : RateLimiter) (now : ℕ)
      → now ≤ r.at
      → Keeps s log now
      → Keeps (asked r s).1 (admit r log (asked r s).0) r.at
  unfolding allow_gitlab_webhook_request
  Keeps-asked s now l h =
      Kept-check_source_bucket (bucket r.source s.source_request_times) s (Keeps-later s now l h)
        refl

pub Keeps-Reached :
    {s : RateLimiter} {log : List RateRequest} {now : ℕ} → Reached s log now → Keeps s log now
Keeps-Reached Reached.start = record {
  by_source = record { tracked = λ k n l. omega arith; each = tt };
  by_connection = record { tracked = λ k n l. omega arith; each = tt };
  few_buckets = omega arith;
}
Keeps-Reached (Reached.request r {s} {log} {now} before l) =
    Keeps-asked r log s now l (Keeps-Reached before)
