-- ===== src/Routes/RateLimit/Admit.antt =====
-- How the changes of a dictionary of buckets bear on its size, and how an admitted request enters it.
use tci.Prelude.{
  ℕ, ◌+◌, ◌≤◌, List, [], ◌∷◌, ◌++◌, EqTest, All, ◌==◌, string_eq, nat_eq, length, refl, ◌≡◌, arith,
  ◌<◌, some,
}
use tci.Prelude.Lists.{length-append}
use tci.Prelude.Equality.{beq_refl}
use tci.Routes.RateLimit.Dictionary.{
  connection_key_eq, Buckets, bucket, put_bucket, pop_bucket, move_to_end,
}
use tci.Routes.RateLimit.{prune_buckets}
use tci.Routes.RateLimit.Fits.{Each-bucket, Fits, live, Fits-put, times_of, live-append, IsBucket}
use tci.Routes.RateLimit.Reached.{RateRequest, count_live}

past-append : (now : ℕ) (ts : List ℕ) → All (λ t. t ≤ now) ts → All (λ t. t ≤ now) (ts ++ now ∷ [])
past-append now [] h = (omega arith, tt)
past-append now (t ∷ ts) h = (h.0, past-append now ts h.1)

module _ {K : Type 0} ⦃eq : EqTest K⦄ where
  pub length-put-le :
      (k : K) (ts : List ℕ) (bs : Buckets K) → length (put_bucket k ts bs) ≤ length bs + 1
  length-put-le k ts [] = omega arith
  length-put-le k ts ((j, us) ∷ bs) = ground (arith, length-put-le k ts bs)

  pub length-put :
      (k : K) (ts us : List ℕ) (bs : Buckets K)
      → bucket k bs ≡ some us
      → length (put_bucket k ts bs) ≡ length bs
  length-put k ts us [] e = cc
  length-put k ts us ((j, vs) ∷ bs) e = ground (arith, length-put k ts us bs)

  length-pop :
      (k : K) (us : List ℕ) (bs : Buckets K)
      → bucket k bs ≡ some us
      → length (pop_bucket k bs) + 1 ≡ length bs
  length-pop k us [] e = cc
  length-pop k us ((j, vs) ∷ bs) e = ground (arith, length-pop k us bs)

  pub length-move-le :
      (k : K) (ts us : List ℕ) (bs : Buckets K)
      → bucket k bs ≡ some us
      → length (move_to_end k ts bs) ≤ length bs
  length-move-le k ts us bs e =
      omega (arith, length-put-le k ts (pop_bucket k bs), length-pop k us bs e)

  pub length-prune_buckets-le :
      (now : ℕ) (bs : Buckets K) → length (prune_buckets now bs) ≤ length bs
  unfolding prune_buckets
  length-prune_buckets-le now [] = omega arith
  length-prune_buckets-le now ((k, ts) ∷ bs) = ground (arith, length-prune_buckets-le now bs)

  -- An admitted request is appended to the bucket of its key.
  pub Fits-admit :
      (key_of : RateRequest → K) (most : ℕ) (bs : Buckets K) (r : RateRequest)
      (log : List RateRequest) (ts : List ℕ)
      → Fits most r.at bs (λ k n. count_live (λ q. key_of q == k) n log)
      → bucket (key_of r) bs ≡ some ts
      → length ts < most
      → Fits most r.at
          (put_bucket (key_of r) (ts ++ r.at ∷ []) bs)
          (λ k n. count_live (λ q. key_of q == k) n (r ∷ log))
  Fits-admit key_of most bs r log ts h e l =
      Fits-put most r.at bs (λ k n. count_live (λ q. key_of q == k) n log) h (key_of r)
        (ts ++ r.at ∷ []) (λ k n. count_live (λ q. key_of q == k) n (r ∷ log))
        (record {
          is_short = omega (arith, l, length-append ts (r.at ∷ []));
          is_past =
              past-append r.at ts
                (Each-bucket (IsBucket most r.at) (key_of r) bs ts h.each e).is_past;
        })
        (λ n g. rw (beq_refl (key_of r)) (omega (arith, live-append n ts (r.at ∷ []), tracked n g)))
        (λ j n d. rw d (omega arith))
    where
      tracked : (n : ℕ) → r.at ≤ n → count_live (λ q. key_of q == key_of r) n log ≤ live n ts
      tracked n g =
          let same : times_of (key_of r) bs ≡ ts = rw e refl in
          rw (← same) (h.tracked (key_of r) n g)
