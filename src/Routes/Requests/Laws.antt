-- ===== src/Routes/Requests/Laws.antt =====
-- Whose request it is behind the trusted proxies, and what is read of a body.
use tci.Prelude.{
  ℕ, ◌+◌, true, false, Option, none, some, List, [], ◌∷◌, ◌++◌, String, length, ltb, All,
  if◌then◌else◌, ◌≡◌, refl, ◌∙◌, arith, Bool-cases, inl, inr, string_eq,
}
use tci.Prelude.Lists.{reverse, length-append, append_assoc, append-nil, reverse-append}
use tci.Routes.Requests.{
  source_key, source_from_forwarded_for, hops_of, from_hops, first_untrusted, is_trusted, is_text,
  read_limited_body, read_chunks, max_body_bytes,
}

-- The bytes of all chunks.
abbrev pub concat : List (List ℕ) → List ℕ
concat [] = []
concat (c ∷ cs) = c ++ concat cs

-- The body that `_read_limited_body` may return, described without the stream.
abbrev pub whole_body : List ℕ → Option (List ℕ)
whole_body body = if ltb max_body_bytes (length body) then none else some body

read_chunks-whole :
    (body : List ℕ) (chunks : List (List ℕ))
    → ltb max_body_bytes (length body) ≡ false
    → read_chunks body chunks ≡ whole_body (body ++ concat chunks)
unfolding read_chunks
read_chunks-whole body [] h = rw (append-nil body, h) refl
read_chunks-whole body (c ∷ cs) h =
    elim (Bool-cases (ltb max_body_bytes (length body + length c))) [
      | inl e ↦
          let too_long : ltb max_body_bytes (length (body ++ (c ++ concat cs))) ≡ true =
            ground (arith, length-append body (c ++ concat cs), length-append c (concat cs), e) in
          rw (e, too_long) refl
      | inr e ↦
          rw (e, ← append_assoc body c (concat cs))
            (read_chunks-whole (body ++ c) cs (rw (length-append body c) e))
    ]

-- However the body is cut into chunks, it is read as a whole where it has at most 1 MiB, and not at
-- all where it has more.
pub read_limited_body-whole :
    (chunks : List (List ℕ)) → read_limited_body chunks ≡ whole_body (concat chunks)
unfolding read_limited_body
read_limited_body-whole chunks = read_chunks-whole [] chunks refl

first_untrusted-skips :
    (hosts : List String) (default : String) (ts rest : List String)
    → All (λ t. is_trusted hosts t ≡ true) ts
    → first_untrusted hosts default (reverse ts ++ rest) ≡ first_untrusted hosts default rest
unfolding reverse
first_untrusted-skips hosts default [] rest h = refl
first_untrusted-skips hosts default (t ∷ ts) rest h =
    rw (append_assoc (reverse ts) (t ∷ []) rest)
      (first_untrusted-skips hosts default ts (t ∷ rest) h.1 ∙ rw h.0 refl)

last_untrusted :
    (hosts : List String) (default : String) (claimed : List String) (hop : String)
    (proxies : List String)
    → is_trusted hosts hop ≡ false
    → All (λ p. is_trusted hosts p ≡ true) proxies
    → first_untrusted hosts default (reverse (claimed ++ hop ∷ proxies)) ≡ hop
unfolding reverse
last_untrusted hosts default claimed hop proxies own all =
    rw
      (
        reverse-append claimed (hop ∷ proxies),
        append_assoc (reverse proxies) (hop ∷ []) (reverse claimed),
      )
      (first_untrusted-skips hosts default proxies (hop ∷ reverse claimed) all ∙ rw own refl)

from_hops-last_untrusted :
    (hosts : List String) (claimed : List String) (hop : String) (proxies : List String)
    → is_trusted hosts hop ≡ false
    → All (λ p. is_trusted hosts p ≡ true) proxies
    → from_hops hosts (claimed ++ hop ∷ proxies) ≡ hop
from_hops-last_untrusted hosts [] hop proxies = last_untrusted hosts hop [] hop proxies
from_hops-last_untrusted hosts (c ∷ claimed) hop proxies =
    last_untrusted hosts c (c ∷ claimed) hop proxies

-- Behind a trusted proxy the source is the last hop that is not a trusted proxy, whatever the client
-- has put before it into X-Forwarded-For.
pub source_key-last_untrusted :
    (strip : String → String) (hosts : List String) (host forwarded_for : String)
    (claimed : List String) (hop : String) (proxies : List String)
    → is_trusted hosts host ≡ true
    → is_text forwarded_for ≡ true
    → hops_of strip forwarded_for ≡ claimed ++ hop ∷ proxies
    → is_trusted hosts hop ≡ false
    → All (λ p. is_trusted hosts p ≡ true) proxies
    → source_key strip hosts record { client_host = some host; forwarded_for = some forwarded_for }
      ≡ hop
unfolding source_key source_from_forwarded_for
source_key-last_untrusted strip hosts host forwarded_for claimed hop proxies trusted text hops own
      all =
    rw (text, trusted, hops) (from_hops-last_untrusted hosts claimed hop proxies own all)
