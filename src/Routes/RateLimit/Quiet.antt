-- ===== src/Routes/RateLimit/Quiet.antt =====
-- What a client that has kept quiet may count on, whatever the others do.
use tci.Prelude.{
  ℕ, ◌<◌, true, false, ◌&&◌, Option, none, some, List, [], ◌∷◌, length, ◌≡◌, refl, arith, string_eq,
  nat_eq, All, ◌==◌, leb, Bool-cases, inl, inr,
}
use tci.Routes.RateLimit.Dictionary.{connection_key_eq, bucket, put_bucket}
use tci.Routes.RateLimit.{
  RateLimiter, allow_gitlab_webhook_request, max_connection_buckets, prune_buckets,
  prune_request_times, is_expired, check_connection_bucket, check_source_bucket,
}
use tci.Routes.RateLimit.Reached.{RateRequest, Reached, asked, count_live, is_of_source}
use tci.Routes.RateLimit.Logged.{
  IsLogged, IsFrom, IsFrom-bucket, Logged, Logged-Reached, source_of, connection_of,
}

-- No time of a request of the source is left in the window.
IsLogged-expired :
    (r : RateRequest) (log : List RateRequest) (t : ℕ)
    → count_live (is_of_source r.source) r.at log ≡ 0
    → IsLogged source_of log r.source t
    → is_expired r.at t ≡ true
IsLogged-expired r [] t h k = cc
IsLogged-expired r (q ∷ log) t h k = elim (Bool-cases (q.source == r.source && q.at == t)) [
  | inl own ↦
      let same : q.at ≡ t = (nat_eq.test_iff q.at t).0 (ground (arith, own)) in
      let yes : (q.source == r.source) ≡ true = ground (arith, own) in
      rw (← same) (ground (arith, h, yes))
  | inr other ↦ IsLogged-expired r log t (ground (arith, h)) (ground (arith, k, other))
]

-- A request of a connection from a source is one of the source.
IsLogged-source :
    (r : RateRequest) (log : List RateRequest) (t : ℕ)
    → IsLogged connection_of log (connection_of r) t
    → IsLogged source_of log r.source t
IsLogged-source r [] t h = cc
IsLogged-source r (q ∷ log) t h = ground (arith, h, IsLogged-source r log t)

pruned_away :
    (P : ℕ → Type 0) (now : ℕ) (ts : List ℕ)
    → ((t : ℕ) → P t → is_expired now t ≡ true)
    → All P ts
    → prune_request_times now ts ≡ []
unfolding prune_request_times
pruned_away P now [] old h = refl
pruned_away P now (t ∷ ts) old h = rw (old t h.0) (pruned_away P now ts old h.1)

module _ (r : RateRequest) (log : List RateRequest)
    (quiet : count_live (is_of_source r.source) r.at log ≡ 0) where
  quiet_connection :
      (s : RateLimiter) (found : Option (List ℕ))
      → IsFrom connection_of log s.connection_request_times
      → length (prune_buckets r.at s.connection_request_times) < max_connection_buckets
      → bucket (connection_of r) s.connection_request_times ≡ found
      → (check_connection_bucket r.at r.source (connection_of r) [] found s).0 ≡ true
  quiet_connection s none h few e =
      let room : leb max_connection_buckets (length (prune_buckets r.at s.connection_request_times))
          ≡ false =
        ground (arith, few) in
      rw room refl
  quiet_connection s (some times) h few e =
      rw
        (pruned_away (IsLogged connection_of log (connection_of r)) r.at times
          (λ t k. IsLogged-expired r log t quiet (IsLogged-source r log t k))
          (IsFrom-bucket connection_of log (connection_of r) s.connection_request_times times h e))
        refl

  quiet_source :
      (s : RateLimiter) (found : Option (List ℕ))
      → Logged s log
      → length (prune_buckets r.at s.connection_request_times) < max_connection_buckets
      → bucket r.source s.source_request_times ≡ found
      → (check_source_bucket r.at r.connection_id r.source found s).0 ≡ true
  quiet_source s none h few e =
      quiet_connection
        record s {
          source_request_times = put_bucket r.source [] (prune_buckets r.at s.source_request_times);
        }
        _ h.by_connection few refl
  quiet_source s (some times) h few e =
      rw
        (pruned_away (IsLogged source_of log r.source) r.at times
          (λ t k. IsLogged-expired r log t quiet k)
          (IsFrom-bucket source_of log r.source s.source_request_times times h.by_source e))
        (quiet_connection
          record s { source_request_times = put_bucket r.source [] s.source_request_times } _
          h.by_connection few refl)

-- Whatever the others do: a source that had no request admitted in the minute before is admitted, for
-- any connection, as long as fewer than 4,096 buckets of connections hold a request of that minute.
pub quiet_source_admitted :
    {s : RateLimiter} {log : List RateRequest} {now : ℕ} (reached : Reached s log now)
    (r : RateRequest)
    → count_live (is_of_source r.source) r.at log ≡ 0
    → length (prune_buckets r.at s.connection_request_times) < max_connection_buckets
    → (asked r s).0 ≡ true
unfolding allow_gitlab_webhook_request
quiet_source_admitted {s} {log} {now} reached r quiet few =
    quiet_source r log quiet s _ (Logged-Reached reached) few refl
