-- ===== src/Tests/Routes.antt =====
-- The guards of the GitLab route on small inputs.
use tci.Prelude.{◌≤◌, ◌<◌, true, some, List, [], ◌∷◌, String, length, ◌≡◌, refl, arith, string_eq}
use tci.Prelude.Text.{split_on}
use tci.Models.Enums.Types.{ProviderEventIdempotencySource}
use tci.Routes.RateLimit.{
  RateLimiter, empty_limiter, allow_gitlab_webhook_request, max_requests, max_source_requests,
  max_connection_buckets, prune_buckets,
}
use tci.Routes.RateLimit.Reached.{
  RateRequest, Reached, asked, admit, count_live, is_of_source, is_of_connection,
}
use tci.Routes.RateLimit.Laws.{window_bounds, admitted_after_window}
use tci.Routes.RateLimit.Quiet.{quiet_source_admitted}
use tci.Routes.Requests.{
  source_key, source_from_forwarded_for, extract_header_delivery, read_limited_body,
  is_oversized_content_length,
}
use tci.Routes.Requests.Laws.{read_limited_body-whole, source_key-last_untrusted}

abbrev first_request : RateRequest
first_request = record { at = 5; source = "10.0.0.1"; connection_id = 7 }

abbrev second_request : RateRequest
second_request = record { at = 9; source = "10.0.0.1"; connection_id = 7 }

abbrev late_request : RateRequest
late_request = record { at = 70000000; source = "10.0.0.1"; connection_id = 7 }

abbrev after_first : RateLimiter
after_first = (asked first_request empty_limiter).1

abbrev after_second : RateLimiter
after_second = (asked second_request after_first).1

Reached-second :
    Reached after_second
      (admit second_request
        (admit first_request [] (asked first_request empty_limiter).0)
        (asked second_request after_first).0)
      9
Reached-second =
    Reached.request second_request (Reached.request first_request Reached.start (omega arith))
      (omega arith)

after_second_test : after_second ≡ record {
  source_request_times = ("10.0.0.1", 5 ∷ 9 ∷ []) ∷ [];
  connection_request_times = (("10.0.0.1", 7), 5 ∷ 9 ∷ []) ∷ [];
}
unfolding allow_gitlab_webhook_request
after_second_test = refl

late_test : (asked late_request after_second).1 ≡ record {
  source_request_times = ("10.0.0.1", 70000000 ∷ []) ∷ [];
  connection_request_times = (("10.0.0.1", 7), 70000000 ∷ []) ∷ [];
}
unfolding allow_gitlab_webhook_request
late_test = refl

window_bounds_example :
    (count_live (is_of_connection ("10.0.0.1", 7)) 12 (
        admit second_request
          (admit first_request [] (asked first_request empty_limiter).0)
          (asked second_request after_first).0)
      ≤ max_requests)
    × (count_live (is_of_source "10.0.0.1") 12 (
          admit second_request
            (admit first_request [] (asked first_request empty_limiter).0)
            (asked second_request after_first).0)
        ≤ max_source_requests)
    × (length after_second.connection_request_times ≤ max_connection_buckets)
window_bounds_example = window_bounds Reached-second ("10.0.0.1", 7) 12 (omega arith)

admitted_after_window_example : (asked late_request after_second).0 ≡ true
admitted_after_window_example = admitted_after_window Reached-second late_request (omega arith)

abbrev other_request : RateRequest
other_request = record { at = 69999999; source = "10.0.0.2"; connection_id = 7 }

abbrev after_other : RateLimiter
after_other = (asked other_request after_second).1

abbrev log_of_two : List RateRequest
log_of_two =
    admit second_request (admit first_request [] (asked first_request empty_limiter).0)
      (asked second_request after_first).0

Reached-other :
    Reached after_other
      (admit other_request log_of_two (asked other_request after_second).0)
      69999999
Reached-other = Reached.request other_request Reached-second (omega arith)

quiet_since :
    count_live
      (is_of_source "10.0.0.1")
      70000000
      (admit other_request log_of_two (asked other_request after_second).0)
    ≡ 0
unfolding allow_gitlab_webhook_request
quiet_since = refl

has_room :
    length (prune_buckets 70000000 after_other.connection_request_times) < max_connection_buckets
unfolding allow_gitlab_webhook_request prune_buckets
has_room = omega arith

quiet_source_admitted_example : (asked late_request after_other).0 ≡ true
quiet_source_admitted_example =
    quiet_source_admitted Reached-other late_request quiet_since has_room

abbrev proxies : List String
proxies = "10.0.0.9" ∷ "10.0.0.8" ∷ []

abbrev same_text : String → String
same_text s = s

source_key-last_untrusted_example :
    source_key same_text proxies
      record { client_host = some "10.0.0.9"; forwarded_for = some "6.6.6.6,1.2.3.4,10.0.0.8" }
    ≡ "1.2.3.4"
unfolding split_on
source_key-last_untrusted_example =
    source_key-last_untrusted same_text proxies "10.0.0.9" "6.6.6.6,1.2.3.4,10.0.0.8"
      ("6.6.6.6" ∷ []) "1.2.3.4" ("10.0.0.8" ∷ []) refl refl refl refl (refl, tt)

direct_test :
    source_key same_text proxies
      record { client_host = some "1.1.1.1"; forwarded_for = some "6.6.6.6" }
    ≡ "1.1.1.1"
unfolding source_key
direct_test = refl

all_trusted_test : source_from_forwarded_for same_text proxies "10.0.0.8,10.0.0.9" ≡ "10.0.0.8"
unfolding source_from_forwarded_for
all_trusted_test = refl

read_limited_body-whole_example :
    read_limited_body ((1 ∷ 2 ∷ []) ∷ [] ∷ (3 ∷ []) ∷ []) ≡ some (1 ∷ 2 ∷ 3 ∷ [])
read_limited_body-whole_example = read_limited_body-whole ((1 ∷ 2 ∷ []) ∷ [] ∷ (3 ∷ []) ∷ [])

header_test :
    extract_header_delivery (some "") (some "u-1")
    ≡ some ("u-1", ProviderEventIdempotencySource.uuid_header)
unfolding extract_header_delivery
header_test = refl

length_test : is_oversized_content_length (λ s. some 1048577) (some "1048577") ≡ true
unfolding is_oversized_content_length
length_test = refl
