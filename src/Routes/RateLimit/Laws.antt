-- ===== src/Routes/RateLimit/Laws.antt =====
-- What the limiter guarantees to the service, and to its clients.
use tci.Prelude.{
  ℕ, ◌+◌, ◌≤◌, true, Option, none, some, List, [], ◌∷◌, length, ◌≡◌, refl, arith, string_eq, EqTest,
}
use tci.Routes.RateLimit.Dictionary.{Buckets, ConnectionKey, connection_key_eq, bucket, put_bucket}
use tci.Routes.RateLimit.{
  RateLimiter, allow_gitlab_webhook_request, window_seconds, max_requests, max_source_requests,
  max_connection_buckets, prune_buckets, check_connection_bucket, check_source_bucket,
}
use tci.Routes.RateLimit.Fits.{
  IsBucket, Each, Each-bucket, live-le-length, nothing_left, times_of-IsBucket, times_of,
}
use tci.Routes.RateLimit.Reached.{
  RateRequest, Reached, asked, count_live, is_of_source, is_of_connection,
}
use tci.Routes.RateLimit.Invariant.{Keeps-Reached}

-- However the requests come, in no window of a minute that ends at or after the last one are more
-- than 120 admitted for a connection from one source, or more than 600 from that source, and there
-- are never more than 4,096 buckets of connections.
pub window_bounds :
    {s : RateLimiter} {log : List RateRequest} {now : ℕ} (reached : Reached s log now)
    (key : ConnectionKey) (n : ℕ)
    → now ≤ n
    → (count_live (is_of_connection key) n log ≤ max_requests)
      × (count_live (is_of_source key.0) n log ≤ max_source_requests)
      × (length s.connection_request_times ≤ max_connection_buckets)
window_bounds {s} {log} {now} reached key n l =
    let kept = Keeps-Reached reached in
    (
      omega (
        arith,
        kept.by_connection.tracked key n l,
        live-le-length n (times_of key s.connection_request_times),
        (times_of-IsBucket max_requests now s.connection_request_times _ kept.by_connection
            key).is_short,
      ),
      omega (
        arith,
        kept.by_source.tracked key.0 n l,
        live-le-length n (times_of key.0 s.source_request_times),
        (times_of-IsBucket max_source_requests now s.source_request_times _ kept.by_source
            key.0).is_short,
      ),
      kept.few_buckets,
    )

buckets_pruned :
    {K : Type 0} ⦃eq : EqTest K⦄ (most now later : ℕ) (bs : Buckets K)
    → now + window_seconds ≤ later
    → Each (IsBucket most now) bs
    → prune_buckets later bs ≡ []
unfolding prune_buckets
buckets_pruned most now later [] l h = refl
buckets_pruned most now later ((k, ts) ∷ bs) l h =
    rw (nothing_left now later ts l h.0.is_past) (buckets_pruned most now later bs l h.1)

module _ (r : RateRequest) (now : ℕ) (l : now + window_seconds ≤ r.at) where
  connection_allowed :
      (s : RateLimiter) (found : Option (List ℕ))
      → Each (IsBucket max_requests now) s.connection_request_times
      → bucket (r.source, r.connection_id) s.connection_request_times ≡ found
      → (check_connection_bucket r.at r.source (r.source, r.connection_id) [] found s).0 ≡ true
  connection_allowed s none h e =
      rw (buckets_pruned max_requests now r.at s.connection_request_times l h) refl
  connection_allowed s (some times) h e =
      rw
        (nothing_left now r.at times l
          (Each-bucket (IsBucket max_requests now) (r.source, r.connection_id)
            s.connection_request_times times h e).is_past)
        refl

  source_allowed :
      (s : RateLimiter) (found : Option (List ℕ))
      → Each (IsBucket max_source_requests now) s.source_request_times
      → Each (IsBucket max_requests now) s.connection_request_times
      → bucket r.source s.source_request_times ≡ found
      → (check_source_bucket r.at r.connection_id r.source found s).0 ≡ true
  source_allowed s none hs hc e =
      connection_allowed
        record s {
          source_request_times = put_bucket r.source [] (prune_buckets r.at s.source_request_times);
        }
        _ hc refl
  source_allowed s (some times) hs hc e =
      rw
        (nothing_left now r.at times l
          (Each-bucket (IsBucket max_source_requests now) r.source s.source_request_times times hs
            e).is_past)
        (connection_allowed
          record s { source_request_times = put_bucket r.source [] s.source_request_times } _ hc
          refl)

-- Whatever was asked before, once nobody has asked for a minute the next request is admitted, of any
-- source and for any connection.
pub admitted_after_window :
    {s : RateLimiter} {log : List RateRequest} {now : ℕ} (reached : Reached s log now)
    (r : RateRequest)
    → now + window_seconds ≤ r.at
    → (asked r s).0 ≡ true
unfolding allow_gitlab_webhook_request
admitted_after_window {s} {log} {now} reached r l =
    let kept = Keeps-Reached reached in
    source_allowed r now l s _ kept.by_source.each kept.by_connection.each refl
