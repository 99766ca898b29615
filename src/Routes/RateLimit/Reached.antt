-- ===== src/Routes/RateLimit/Reached.antt =====
-- The states that the limiter goes through, with the requests that it has admitted.
use tci.Prelude.{ℕ, ◌+◌, ◌≤◌, Bool, List, [], ◌∷◌, String, if◌then◌else◌, ◌==◌, string_eq, nat_eq}
use tci.Models.Rows.{Uuid}
use tci.Routes.RateLimit.Dictionary.{ConnectionKey, connection_key_eq}
use tci.Routes.RateLimit.{RateLimiter, empty_limiter, allow_gitlab_webhook_request}
use tci.Routes.RateLimit.Fits.{live}

pub record RateRequest : Type 0 where
  pub at : ℕ
  pub source : String
  pub connection_id : Uuid

abbrev pub is_of_source : String → RateRequest → Bool
is_of_source source r = r.source == source

abbrev pub is_of_connection : ConnectionKey → RateRequest → Bool
is_of_connection key r = (r.source, r.connection_id) == key

-- How many of the requests pass the test and lie in the window that ends at n.
abbrev pub count_live : (RateRequest → Bool) → ℕ → List RateRequest → ℕ
count_live p n [] = 0
count_live p n (r ∷ rs) = (if p r then live n (r.at ∷ []) else 0) + count_live p n rs

abbrev pub asked : RateRequest → RateLimiter → Bool × RateLimiter
asked r s = allow_gitlab_webhook_request r.at r.connection_id r.source s

abbrev pub admit : RateRequest → List RateRequest → Bool → List RateRequest
admit r log b = if b then r ∷ log else log

-- The limiter, the requests admitted so far with the latest first, and the time of the last
-- request. The clock does not go back.
pub data Reached : RateLimiter → List RateRequest → ℕ → Type 0 where
  start : Reached empty_limiter [] 0
  request :
      (r : RateRequest) {s : RateLimiter} {log : List RateRequest} {now : ℕ}
      → Reached s log now
      → now ≤ r.at
      → Reached (asked r s).1 (admit r log (asked r s).0) r.at
