-- ===== src/Routes/RateLimit/Dictionary.antt =====
-- The dictionaries of api/routes/gitlab_webhooks.py: buckets of request times by key, in the order
-- of an OrderedDict. A bucket that is changed in place is put back under its key.
use tci.Prelude.{
  ℕ, Bool, true, Option, none, some, List, [], ◌∷◌, String, if◌then◌else◌, EqTest, ◌==◌, string_eq,
  nat_eq, ◌&&◌, ◌≡◌, ◌↔◌, arith,
}
use tci.Models.Rows.{Uuid}

abbrev pub Buckets : Type 0 → Type 0
Buckets K = List (K × List ℕ)

abbrev pub ConnectionKey : Type 0
ConnectionKey = String × Uuid

abbrev key_beq : ConnectionKey → ConnectionKey → Bool
key_beq (s, c) (t, d) = s == t && c == d

pub key_beq_iff : (a b : ConnectionKey) → (key_beq a b ≡ true) ↔ (a ≡ b)
key_beq_iff (s, c) (t, d) = ground (arith, string_eq.test_iff s t, nat_eq.test_iff c d)

instance abbrev pub connection_key_eq : EqTest ConnectionKey
connection_key_eq = record { test = key_beq; test_iff = key_beq_iff }

module _ {K : Type 0} ⦃eq : EqTest K⦄ where
  -- `.get(key)`
  abbrev pub bucket : K → Buckets K → Option (List ℕ)
  bucket k [] = none
  bucket k ((j, ts) ∷ bs) = let rest = bucket k bs in if j == k then some ts else rest

  -- `[key] = times`: in place, or at the end.
  abbrev pub put_bucket : K → List ℕ → Buckets K → Buckets K
  put_bucket k ts [] = (k, ts) ∷ []
  put_bucket k ts ((j, us) ∷ bs) =
      let rest = put_bucket k ts bs in if j == k then (k, ts) ∷ bs else (j, us) ∷ rest

  -- `.pop(key, None)`
  abbrev pub pop_bucket : K → Buckets K → Buckets K
  pop_bucket k [] = []
  pop_bucket k ((j, us) ∷ bs) = let rest = pop_bucket k bs in if j == k then bs else (j, us) ∷ rest

  -- `.move_to_end(key)`, of a bucket that is changed to `times`.
  abbrev pub move_to_end : K → List ℕ → Buckets K → Buckets K
  move_to_end k ts bs = put_bucket k ts (pop_bucket k bs)
