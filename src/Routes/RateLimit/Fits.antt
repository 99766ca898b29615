-- ===== src/Routes/RateLimit/Fits.antt =====
-- One dictionary of buckets: how long its buckets are, how late their times, and how many requests
-- that were admitted it still accounts for.
use tci.Prelude.{
  ℕ, ◌+◌, ◌≤◌, true, false, some, List, [], ◌∷◌, ◌++◌, length, All, if◌then◌else◌, EqTest, ◌==◌,
  Bool-cases, Option-cases, ◌≡◌, refl, sym, ◌∙◌, arith, inl, inr, or_else,
}
use tci.Prelude.Equality.{beq_refl}
use tci.Routes.RateLimit.Dictionary.{Buckets, bucket, put_bucket, pop_bucket, move_to_end}
use tci.Routes.RateLimit.{window_seconds, is_expired, prune_request_times, prune_buckets, is_empty}

-- How many of the times are in the window that ends at n.
abbrev pub live : ℕ → List ℕ → ℕ
live n [] = 0
live n (t ∷ ts) = (if is_expired n t then 0 else 1) + live n ts

abbrev pub times_of : {K : Type 0} ⦃eq : EqTest K⦄ → K → Buckets K → List ℕ
times_of k bs = or_else (bucket k bs) []

pub live-append : (n : ℕ) (ts us : List ℕ) → live n (ts ++ us) ≡ live n ts + live n us
live-append n [] us = omega arith
live-append n (t ∷ ts) us = omega (arith, live-append n ts us)

pub live-le-length : (n : ℕ) (ts : List ℕ) → live n ts ≤ length ts
live-le-length n [] = omega arith
live-le-length n (t ∷ ts) = ground (arith, live-le-length n ts)

-- What is pruned has left every later window.
pub live-prune :
    (now n : ℕ) (ts : List ℕ) → now ≤ n → live n (prune_request_times now ts) ≡ live n ts
unfolding prune_request_times
live-prune now n [] h = refl
live-prune now n (t ∷ ts) h = ground (arith, live-prune now n ts h)

live-empty :
    (now n : ℕ) (ts : List ℕ)
    → now ≤ n
    → is_empty (prune_request_times now ts) ≡ true
    → live n ts ≡ 0
live-empty now n ts h e = sym (live-prune now n ts h) ∙ go (prune_request_times now ts) e
  where
    go : (us : List ℕ) → is_empty us ≡ true → live n us ≡ 0
    go [] e = refl
    go (u ∷ us) e = cc

-- A bucket that the limiter may hold.
pub record IsBucket (most now : ℕ) (ts : List ℕ) : Type 0 where
  pub is_short : length ts ≤ most
  pub is_past : All (λ t. t ≤ now) ts

All-prune :
    (now later : ℕ) (ts : List ℕ)
    → All (λ t. t ≤ later) ts
    → All (λ t. t ≤ later) (prune_request_times now ts)
unfolding prune_request_times
All-prune now later [] h = tt
All-prune now later (t ∷ ts) h = elim (Bool-cases (is_expired now t)) [
  | inl e ↦ rw e (All-prune now later ts h.1)
  | inr e ↦ rw e h
]

length-prune-le : (now : ℕ) (ts : List ℕ) → length (prune_request_times now ts) ≤ length ts
unfolding prune_request_times
length-prune-le now [] = omega arith
length-prune-le now (t ∷ ts) = ground (arith, length-prune-le now ts)

pub prune-IsBucket :
    (most now later : ℕ) (ts : List ℕ)
    → IsBucket most later ts
    → IsBucket most later (prune_request_times now ts)
prune-IsBucket most now later ts h = record {
  is_short = omega (arith, h.is_short, length-prune-le now ts);
  is_past = All-prune now later ts h.is_past;
}

All-later :
    (now later : ℕ) (ts : List ℕ) → now ≤ later → All (λ t. t ≤ now) ts → All (λ t. t ≤ later) ts
All-later now later [] l h = tt
All-later now later (t ∷ ts) l h = (omega (arith, l, h.0), All-later now later ts l h.1)

-- Times of the past are all pruned once the window has passed.
pub nothing_left :
    (now later : ℕ) (ts : List ℕ)
    → now + window_seconds ≤ later
    → All (λ t. t ≤ now) ts
    → prune_request_times later ts ≡ []
unfolding prune_request_times
nothing_left now later [] l h = refl
nothing_left now later (t ∷ ts) l h =
    let e : is_expired later t ≡ true = ground (arith, l, h.0) in
    rw e (nothing_left now later ts l h.1)

module _ {K : Type 0} ⦃eq : EqTest K⦄ where
  abbrev pub Each : (List ℕ → Type 0) → Buckets K → Type 0
  Each G bs = All (λ b. G b.1) bs

  pub Each-bucket :
      (G : List ℕ → Type 0) (k : K) (bs : Buckets K) (ts : List ℕ)
      → Each G bs
      → bucket k bs ≡ some ts
      → G ts
  Each-bucket G k [] ts h e = cc
  Each-bucket G k ((j, us) ∷ bs) ts h e = elim (Bool-cases (j == k)) [
    | inl y ↦ let same : us ≡ ts = ground (arith, e, y) in rw (← same) h.0
    | inr y ↦ Each-bucket G k bs ts h.1 (ground (arith, e, y))
  ]

  pub Each-put :
      (G : List ℕ → Type 0) (k : K) (ts : List ℕ) (bs : Buckets K)
      → G ts
      → Each G bs
      → Each G (put_bucket k ts bs)
  Each-put G k ts [] g h = (g, tt)
  Each-put G k ts ((j, us) ∷ bs) g h = elim (Bool-cases (j == k)) [
    | inl y ↦ rw y (g, h.1)
    | inr y ↦ rw y (h.0, Each-put G k ts bs g h.1)
  ]

  Each-pop : (G : List ℕ → Type 0) (k : K) (bs : Buckets K) → Each G bs → Each G (pop_bucket k bs)
  Each-pop G k [] h = tt
  Each-pop G k ((j, us) ∷ bs) h = elim (Bool-cases (j == k)) [
    | inl y ↦ rw y h.1
    | inr y ↦ rw y (h.0, Each-pop G k bs h.1)
  ]

  Each-prune :
      (G : List ℕ → Type 0) (now : ℕ) (bs : Buckets K)
      → ((ts : List ℕ) → G ts → G (prune_request_times now ts))
      → Each G bs
      → Each G (prune_buckets now bs)
  unfolding prune_buckets
  Each-prune G now [] p h = tt
  Each-prune G now ((k, ts) ∷ bs) p h = elim (Bool-cases (is_empty (prune_request_times now ts))) [
    | inl y ↦ rw y (Each-prune G now bs p h.1)
    | inr y ↦ rw y (p ts h.0, Each-prune G now bs p h.1)
  ]

  apart : (i j k : K) → (i == k) ≡ false → (i == j) ≡ true → (k == j) ≡ false
  apart i j k y z = elim (Bool-cases (k == j)) [
    | inl e ↦
        let same : i ≡ k = (eq.test_iff i j).0 z ∙ sym ((eq.test_iff k j).0 e) in
        let yes : (i == k) ≡ true = (eq.test_iff i k).1 same in cc
    | inr e ↦ e
  ]

  pub bucket-put :
      (j k : K) (ts : List ℕ) (bs : Buckets K)
      → bucket j (put_bucket k ts bs) ≡ (if k == j then some ts else bucket j bs)
  bucket-put j k ts [] = refl
  bucket-put j k ts ((i, us) ∷ bs) = elim (Bool-cases (i == k)) [
    | inl y ↦ let same : i ≡ k = (eq.test_iff i k).0 y in rw (y, same) (ground arith)
    | inr y ↦ elim (Bool-cases (i == j)) [
      | inl z ↦ rw (y, z, apart i j k y z) refl
      | inr z ↦ rw (y, z) (bucket-put j k ts bs)
    ]
  ]

  bucket-pop :
      (j k : K) (bs : Buckets K) → (k == j) ≡ false → bucket j (pop_bucket k bs) ≡ bucket j bs
  bucket-pop j k [] h = refl
  bucket-pop j k ((i, us) ∷ bs) h = elim (Bool-cases (i == k)) [
    | inl y ↦ let same : i ≡ k = (eq.test_iff i k).0 y in rw (y, same, h) refl
    | inr y ↦ rw (y, bucket-pop j k bs h) refl
  ]

  -- The limiter's dictionary `bs` at the time `now`, where `admitted k n` requests of the key k were
  -- admitted in the window that ends at n.
  pub record Fits (most now : ℕ) (bs : Buckets K) (admitted : K → ℕ → ℕ) : Type 0 where
    pub tracked : (k : K) (n : ℕ) → now ≤ n → admitted k n ≤ live n (times_of k bs)
    pub each : Each (IsBucket most now) bs

  live-prune_buckets-le :
      (now n : ℕ) (k : K) (bs : Buckets K)
      → now ≤ n
      → live n (times_of k bs) ≤ live n (times_of k (prune_buckets now bs))
  unfolding prune_buckets
  live-prune_buckets-le now n k [] h = omega arith
  live-prune_buckets-le now n k ((j, ts) ∷ bs) h = elim (Bool-cases (j == k)) [
    | inl y ↦ elim (Bool-cases (is_empty (prune_request_times now ts))) [
      | inl e ↦ rw (y, e) (omega (arith, live-empty now n ts h e))
      | inr e ↦ rw (y, e) rw y (omega (arith, live-prune now n ts h))
    ]
    | inr y ↦ elim (Bool-cases (is_empty (prune_request_times now ts))) [
      | inl e ↦ rw (y, e) (live-prune_buckets-le now n k bs h)
      | inr e ↦ rw (y, e) rw y (live-prune_buckets-le now n k bs h)
    ]
  ]

  module _ (most now : ℕ) (bs : Buckets K) (admitted : K → ℕ → ℕ)
      (fits : Fits most now bs admitted) where
    pub Fits-later : (later : ℕ) → now ≤ later → Fits most later bs admitted
    Fits-later later h = record {
      tracked = λ k n l. fits.tracked k n (omega (arith, h, l));
      each = go bs fits.each;
    }
      where
        go : (cs : Buckets K) → Each (IsBucket most now) cs → Each (IsBucket most later) cs
        go [] e = tt
        go ((k, ts) ∷ cs) e = (
          record { is_short = e.0.is_short; is_past = All-later now later ts h e.0.is_past },
          go cs e.1,
        )

    -- What the dictionary holds for a key, also where it holds nothing.
    pub times_of-IsBucket : (k : K) → IsBucket most now (times_of k bs)
    times_of-IsBucket k = elim (Option-cases (bucket k bs)) [
      | inl e ↦ rw e record { is_short = omega arith; is_past = tt }
      | inr (ts, e) ↦ rw e (Each-bucket (IsBucket most now) k bs ts fits.each e)
    ]

    pub Fits-prune : Fits most now (prune_buckets now bs) admitted
    Fits-prune = record {
      tracked = λ k n l. omega (arith, fits.tracked k n l, live-prune_buckets-le now n k bs l);
      each = Each-prune (IsBucket most now) now bs (prune-IsBucket most now now) fits.each;
    }

    -- A bucket is replaced by one that accounts for the requests of its key.
    pub Fits-put :
        (k : K) (ts : List ℕ) (more : K → ℕ → ℕ)
        → IsBucket most now ts
        → ((n : ℕ) → now ≤ n → more k n ≤ live n ts)
        → ((j : K) (n : ℕ) → (k == j) ≡ false → more j n ≤ admitted j n)
        → Fits most now (put_bucket k ts bs) more
    Fits-put k ts more good same others = record {
      tracked = λ j n l. elim (Bool-cases (k == j)) [
        | inl e ↦ rw (bucket-put j k ts bs, e) (rw (← (eq.test_iff k j).0 e) (same n l))
        | inr e ↦ rw (bucket-put j k ts bs, e) (omega (arith, others j n e, fits.tracked j n l))
      ];
      each = Each-put (IsBucket most now) k ts bs good fits.each;
    }

    pub Fits-pop :
        (k : K) (fewer : K → ℕ → ℕ)
        → ((n : ℕ) → fewer k n ≡ 0)
        → ((j : K) (n : ℕ) → (k == j) ≡ false → fewer j n ≤ admitted j n)
        → Fits most now (pop_bucket k bs) fewer
    Fits-pop k fewer zero_at others = record {
      tracked = λ j n l. elim (Bool-cases (k == j)) [
        | inl e ↦ rw (← (eq.test_iff k j).0 e) (omega (arith, zero_at n))
        | inr e ↦ rw (bucket-pop j k bs e) (omega (arith, others j n e, fits.tracked j n l))
      ];
      each = Each-pop (IsBucket most now) k bs fits.each;
    }

  pub Fits-move :
      (most now : ℕ) (bs : Buckets K) (admitted : K → ℕ → ℕ) (fits : Fits most now bs admitted)
      (k : K) (ts : List ℕ)
      → IsBucket most now ts
      → ((n : ℕ) → now ≤ n → admitted k n ≤ live n ts)
      → Fits most now (move_to_end k ts bs) admitted
  Fits-move most now bs admitted fits k ts good same =
      Fits-put most now (pop_bucket k bs) fewer
        (Fits-pop most now bs admitted fits k fewer (λ n. rw (beq_refl k) refl)
          (λ j n e. rw e (omega arith)))
        k ts admitted good same (λ j n e. rw e (omega arith))
    where
      fewer : K → ℕ → ℕ
      fewer j n = if k == j then 0 else admitted j n
