-- ===== src/Routes/RateLimit.antt =====
-- The rate limiter of api/routes/gitlab_webhooks.py that keeps its buckets in memory. Times are the
-- readings of the monotonic clock, in microseconds. `cutoff = now - window` may lie before the
-- clock's zero, so a test `t <= cutoff` is written `t + window <= now`, and the functions take `now`.
pub mod Dictionary
pub mod Fits
pub mod Reached
pub mod Admit
pub mod Invariant
pub mod Logged
pub mod Quiet
pub mod Laws
use tci.Prelude.{
  ℕ, ◌+◌, Bool, true, false, Option, none, some, List, [], ◌∷◌, ◌++◌, String, length, leb,
  if◌then◌else◌, EqTest, ◌==◌, string_eq, nat_eq, not,
}
use tci.Models.Rows.{Uuid}
use tci.Routes.RateLimit.Dictionary.{
  Buckets, ConnectionKey, bucket, put_bucket, move_to_end, connection_key_eq,
}

-- The constants GITLAB_WEBHOOK_RATE_LIMIT_*.
abbrev pub window_seconds : ℕ
window_seconds = 60000000

abbrev pub max_requests : ℕ
max_requests = 120

abbrev pub max_source_requests : ℕ
max_source_requests = 600

abbrev pub max_connection_buckets : ℕ
max_connection_buckets = 4096

-- The two module-level dictionaries. Every function that uses them holds the lock.
pub record RateLimiter : Type 0 where
  pub source_request_times : Buckets String
  pub connection_request_times : Buckets ConnectionKey

abbrev pub empty_limiter : RateLimiter
empty_limiter = record { source_request_times = []; connection_request_times = [] }

-- `request_time <= cutoff`
abbrev pub is_expired : ℕ → ℕ → Bool
is_expired now t = leb (t + window_seconds) now

-- `_prune_request_times`
unfoldable pub prune_request_times : ℕ → List ℕ → List ℕ
prune_request_times now [] = []
prune_request_times now (t ∷ ts) =
    let rest = prune_request_times now ts in if is_expired now t then rest else t ∷ ts

abbrev pub is_empty {ℓ} : {A : Type ℓ} → List A → Bool
is_empty [] = true
is_empty (x ∷ xs) = false

-- The buckets are pruned, and those that are empty then are popped by their keys, which are distinct.
unfoldable pub prune_buckets : {K : Type 0} → ℕ → Buckets K → Buckets K
unfolding prune_request_times
prune_buckets now [] = []
prune_buckets now ((k, ts) ∷ bs) =
    let rest = prune_buckets now bs in
    if is_empty (prune_request_times now ts) then rest else (k, prune_request_times now ts) ∷ rest

module _ (now : ℕ) where
  -- `append` to both buckets.
  abbrev pub note_request :
      String → ConnectionKey → List ℕ → List ℕ → RateLimiter → Bool × RateLimiter
  note_request source key source_times times s = (
    true,
    record {
      source_request_times = put_bucket source (source_times ++ now ∷ []) s.source_request_times;
      connection_request_times = put_bucket key (times ++ now ∷ []) s.connection_request_times;
    },
  )

  -- The bucket of the connection is there, and pruned.
  abbrev pub with_connection_bucket :
      String → ConnectionKey → List ℕ → List ℕ → RateLimiter → Bool × RateLimiter
  with_connection_bucket source key source_times times s =
      if leb max_requests (length times)
      then (false, s)
      else note_request source key source_times times s

  -- A connection that has no bucket gets one, unless there are too many.
  abbrev pub new_connection_bucket :
      String → ConnectionKey → List ℕ → RateLimiter → Bool × RateLimiter
  new_connection_bucket source key source_times s =
      let pruned = record s {
        connection_request_times = prune_buckets now s.connection_request_times;
      } in
      if leb max_connection_buckets (length pruned.connection_request_times)
      then (false, pruned)
      else with_connection_bucket source key source_times [] record pruned {
        connection_request_times = put_bucket key [] pruned.connection_request_times;
      }

  abbrev pub old_connection_bucket :
      String → ConnectionKey → List ℕ → List ℕ → RateLimiter → Bool × RateLimiter
  old_connection_bucket source key source_times times s =
      with_connection_bucket source key source_times (prune_request_times now times) record s {
        connection_request_times =
            move_to_end key (prune_request_times now times) s.connection_request_times;
      }

  abbrev pub check_connection_bucket :
      String → ConnectionKey → List ℕ → Option (List ℕ) → RateLimiter → Bool × RateLimiter
  check_connection_bucket source key source_times none s =
      new_connection_bucket source key source_times s
  check_connection_bucket source key source_times (some times) s =
      old_connection_bucket source key source_times times s

  -- The bucket of the source is there, and pruned.
  abbrev pub with_source_bucket : Uuid → String → List ℕ → RateLimiter → Bool × RateLimiter
  with_source_bucket connection_id source source_times s =
      if leb max_source_requests (length source_times)
      then (false, s)
      else check_connection_bucket source (source, connection_id) source_times
          (bucket (source, connection_id) s.connection_request_times) s

  abbrev pub check_source_bucket :
      Uuid → String → Option (List ℕ) → RateLimiter → Bool × RateLimiter
  check_source_bucket connection_id source none s =
      with_source_bucket connection_id source [] record s {
        source_request_times = put_bucket source [] (prune_buckets now s.source_request_times);
      }
  check_source_bucket connection_id source (some times) s =
      with_source_bucket connection_id source (prune_request_times now times) record s {
        source_request_times =
            put_bucket source (prune_request_times now times) s.source_request_times;
      }

  -- `_allow_gitlab_webhook_request`, without a Redis URL.
  unfoldable pub allow_gitlab_webhook_request : Uuid → String → RateLimiter → Bool × RateLimiter
  unfolding prune_request_times prune_buckets
  allow_gitlab_webhook_request connection_id source s =
      check_source_bucket connection_id source (bucket source s.source_request_times) s
