-- ===== src/Fetch/Sems/Progress.antt =====
-- Fetches that nobody cancels come to an end.
use bfeed.Base.{
  ℕ, zero, suc, ◌+◌, ◌≤◌, ◌<◌, ◌≡◌, refl, sym, ap, Bool, Bool-cases, true, false, none, List, [],
  ◌∷◌, ◌++◌, count, ◌⊎◌, inl, inr, arith,
}
use mathlib.Core.Path.{subst}
use bfeed.Base.Int.{ℤ, pos, negsuc, leb_ℤ, pos_part}
use bfeed.Base.Text.{Text}
use bfeed.Store.Table.{All}
use bfeed.Fetch.Sems.{
  Sems, Fetching, ready, waiting, holding, leaving, ended, Move, joins, takes, releases, leaves,
  cancels, Fetches, Reach, begun, join, put_token, take_token, unref, host_concurrency,
}
use bfeed.Fetch.Sems.Invariant.{holds, uses_key, IsSafe, Move-IsSafe, Reach-IsSafe, begun-IsSafe}
use bfeed.Fetch.Sems.Hosts.{gone}
use bfeed.Fetch.Sems.Counting.{count-le_of}

abbrev is_cancel : {cap : ℕ} {c d : Sems} {t u : Fetching} → Move cap c t d u → Bool
is_cancel (joins k) = false
is_cancel (takes k p h) = false
is_cancel (releases k p) = false
is_cancel (leaves k p) = false
is_cancel (cancels k p) = true

-- Steps of which none is `ctx.Done()`.
pub data Runs (cap : ℕ) : Sems → List Fetching → Sems → List Fetching → Type 0 where
  rests : {c : Sems} {ts : List Fetching} → Runs cap c ts c ts
  steps :
      {c d e : Sems} {t u : Fetching} {zs : List Fetching} (xs ys : List Fetching)
      → (mv : Move cap c t d u) → is_cancel mv ≡ false
      → Runs cap d (xs ++ (u ∷ ys)) e zs
      → Runs cap c (xs ++ (t ∷ ys)) e zs

-- The steps that a fetch has before it.
abbrev to_do : Fetching → ℕ
to_do (ready k) = 4
to_do (waiting k p) = 3
to_do (holding k p) = 2
to_do (leaving k p) = 1
to_do ended = 0

abbrev total : List Fetching → ℕ
total [] = 0
total (t ∷ ts) = to_do t + total ts

total-splice :
    (xs : List Fetching) (t : Fetching) (ys : List Fetching)
    → total (xs ++ (t ∷ ys)) ≡ total xs + total ys + to_do t
total-splice [] t ys = omega arith
total-splice (x ∷ xs) t ys = omega (arith, total-splice xs t ys)

abbrev is_waiting : Fetching → Bool
is_waiting (waiting k p) = true
is_waiting _ = false

abbrev is_active : Fetching → Bool
is_active (ready k) = true
is_active (holding k p) = true
is_active (leaving k p) = true
is_active _ = false

-- The first fetch with a property, and what stands around it.
record Found (p : Fetching → Bool) (ts : List Fetching) : Type 0 where
  before : List Fetching
  it : Fetching
  after : List Fetching
  place : ts ≡ before ++ (it ∷ after)
  has : p it ≡ true

search_for : (p : Fetching → Bool) (ts : List Fetching) → Found p ts ⊎ (count p ts ≡ 0)
search_for p [] = inr refl
search_for p (t ∷ ts) = elim (Bool-cases (p t)) [
  | inl e ↦ inl (record { before = []; it = t; after = ts; place = refl; has = e })
  | inr e ↦ elim (search_for p ts) [
    | inl f ↦ inl (record {
      before = t ∷ f.before;
      it = f.it;
      after = f.after;
      place = ap (λ us. t ∷ us) f.place;
      has = f.has;
    })
    | inr n ↦ inr (ground (arith, e, n))
  ]
]

record Next (cap : ℕ) (c : Sems) (t : Fetching) : Type 0 where
  d : Sems
  u : Fetching
  mv : Move cap c t d u
  kept : is_cancel mv ≡ false
  less : to_do u < to_do t

next_active : (cap : ℕ) (c : Sems) (t : Fetching) → is_active t ≡ true → Next cap c t
next_active cap c (ready k) h = record {
  d = (join k c).1;
  u = waiting k (join k c).0;
  mv = joins k;
  kept = refl;
  less = omega arith;
}
next_active cap c (holding k p) h = record {
  d = take_token p c;
  u = leaving k p;
  mv = releases k p;
  kept = refl;
  less = omega arith;
}
next_active cap c (leaving k p) h = record {
  d = unref k p c;
  u = ended;
  mv = leaves k p;
  kept = refl;
  less = omega arith;
}
next_active cap c (waiting k p) h = cc
next_active cap c ended h = cc

holds-active : (p : ℕ) (t : Fetching) → Unit {0} → holds p t ≡ true → is_active t ≡ true
holds-active p (ready k) u h = refl
holds-active p (waiting k q) u h = cc
holds-active p (holding k q) u h = refl
holds-active p (leaving k q) u h = refl
holds-active p ended u h = cc

all_ended :
    (ts : List Fetching)
    → count is_active ts ≡ 0
    → count is_waiting ts ≡ 0
    → All (λ t. t ≡ ended) ts
all_ended [] h n = tt
all_ended (ended ∷ ts) h n = (refl, all_ended ts h n)
all_ended (ready k ∷ ts) h n = absurd (omega (arith, h))
all_ended (waiting k p ∷ ts) h n = absurd (omega (arith, n))
all_ended (holding k p ∷ ts) h n = absurd (omega (arith, h))
all_ended (leaving k p ∷ ts) h n = absurd (omega (arith, h))

unused_when_ended :
    (k : Text) (ts : List Fetching)
    → count is_active ts ≡ 0
    → count is_waiting ts ≡ 0
    → count (uses_key k) ts ≡ 0
unused_when_ended k [] h n = refl
unused_when_ended k (ended ∷ ts) h n = unused_when_ended k ts h n
unused_when_ended k (ready l ∷ ts) h n = absurd (omega (arith, h))
unused_when_ended k (waiting l p ∷ ts) h n = absurd (omega (arith, n))
unused_when_ended k (holding l p ∷ ts) h n = absurd (omega (arith, h))
unused_when_ended k (leaving l p ∷ ts) h n = absurd (omega (arith, h))

all_any : (ts : List Fetching) → All (λ t. Unit {0}) ts
all_any [] = tt
all_any (t ∷ ts) = (tt, all_any ts)

record Outcome (cap : ℕ) (c : Sems) (ts : List Fetching) : Type 0 where
  d : Sems
  zs : List Fetching
  run : Runs cap c ts d zs
  over : All (λ t. t ≡ ended) zs
  empty : (k : Text) → d.table k ≡ none

-- A fetch that waits while no other can move finds a free token.
next_waiting :
    {cap : ℕ} {c : Sems} {ts : List Fetching}
    → 0 < cap
    → IsSafe cap c ts
    → count is_active ts ≡ 0
    → (t : Fetching) → is_waiting t ≡ true
    → Next cap c t
next_waiting {cap} {c} {ts} room s n (waiting k p) h = record {
  d = put_token p c;
  u = holding k p;
  mv = takes k p (
      omega (
        arith,
        room,
        n,
        s.tokens p,
        count-le_of (λ t. Unit) (holds p) is_active ts (holds-active p) (all_any ts),
      ));
  kept = refl;
  less = omega arith;
}
next_waiting room s n (ready k) h = cc
next_waiting room s n (holding k p) h = cc
next_waiting room s n (leaving k p) h = cc
next_waiting room s n ended h = cc

module _ (cap : ℕ) (room : 0 < cap) where
  -- One step, and the run from there.
  goes_on :
      {c : Sems} (ts xs : List Fetching) (t : Fetching) (ys : List Fetching)
      → ts ≡ xs ++ (t ∷ ys)
      → (x : Next cap c t) → Outcome cap x.d (xs ++ (x.u ∷ ys))
      → Outcome cap c ts
  goes_on {c} ts xs t ys e x o = subst (Outcome cap c) (sym e) (record {
    d = o.d;
    zs = o.zs;
    run = steps xs ys x.mv x.kept o.run;
    over = o.over;
    empty = o.empty;
  })

  next_total :
      {c : Sems} (n : ℕ) (ts xs : List Fetching) (t : Fetching) (ys : List Fetching)
      → ts ≡ xs ++ (t ∷ ys)
      → total ts ≤ suc n
      → (x : Next cap c t) → total (xs ++ (x.u ∷ ys)) ≤ n
  next_total n ts xs t ys e h x =
      omega (arith, ap total e, h, x.less, total-splice xs t ys, total-splice xs x.u ys)

  some_total :
      (ts xs : List Fetching) (t : Fetching) (ys : List Fetching)
      → {c : Sems} → ts ≡ xs ++ (t ∷ ys)
      → Next cap c t
      → 0 < total ts
  some_total ts xs t ys e x = omega (arith, ap total e, x.less, total-splice xs t ys)

  next-IsSafe :
      {c : Sems} (ts xs : List Fetching) (t : Fetching) (ys : List Fetching)
      → ts ≡ xs ++ (t ∷ ys)
      → IsSafe cap c ts
      → (x : Next cap c t) → IsSafe cap x.d (xs ++ (x.u ∷ ys))
  next-IsSafe {c} ts xs t ys e s x = Move-IsSafe xs ys x.mv (subst (IsSafe cap c) e s)

  -- The next step of a client with some fetch that has not ended.
  record Chosen (c : Sems) (ts : List Fetching) : Type 0 where
    xs : List Fetching
    t : Fetching
    ys : List Fetching
    place : ts ≡ xs ++ (t ∷ ys)
    next : Next cap c t

  choose :
      (c : Sems) (ts : List Fetching)
      → IsSafe cap c ts
      → Chosen c ts ⊎ ((count is_active ts ≡ 0) × (count is_waiting ts ≡ 0))
  choose c ts s = elim (search_for is_active ts) [
    | inl f ↦ inl (record {
      xs = f.before;
      t = f.it;
      ys = f.after;
      place = f.place;
      next = next_active cap c f.it f.has;
    })
    | inr n ↦ elim (search_for is_waiting ts) [
      | inl f ↦ inl (record {
        xs = f.before;
        t = f.it;
        ys = f.after;
        place = f.place;
        next = next_waiting room s n f.it f.has;
      })
      | inr m ↦ inr (n, m)
    ]
  ]

  runs_out :
      (n : ℕ) (c : Sems) (ts : List Fetching) → total ts ≤ n → IsSafe cap c ts → Outcome cap c ts
  runs_out zero c ts h s = elim (choose c ts s) [
    | inl x ↦ absurd (omega (arith, h, some_total ts x.xs x.t x.ys x.place x.next))
    | inr (a, w) ↦ record {
      d = c;
      zs = ts;
      run = rests;
      over = all_ended ts a w;
      empty = λ k. gone s k (unused_when_ended k ts a w);
    }
  ]
  runs_out (suc n) c ts h s = elim (choose c ts s) [
    | inl x ↦ goes_on ts x.xs x.t x.ys x.place x.next (
        runs_out n x.next.d (x.xs ++ (x.next.u ∷ x.ys))
          (next_total n ts x.xs x.t x.ys x.place h x.next)
          (next-IsSafe ts x.xs x.t x.ys x.place s x.next))
    | inr (a, w) ↦ record {
      d = c;
      zs = ts;
      run = rests;
      over = all_ended ts a w;
      empty = λ k. gone s k (unused_when_ended k ts a w);
    }
  ]

positive : (n : ℤ) → leb_ℤ n (pos 0) ≡ false → 0 < pos_part n
positive (pos zero) h = cc
positive (pos (suc n)) h = omega arith
positive (negsuc n) h = absurd (ground (arith, h))

some_room : (n : ℤ) → 0 < host_concurrency n
unfolding host_concurrency
some_room n = ground (arith, positive n)

-- Whatever capacity the client is configured with, and whatever the fetches did so far,
-- cancellations included: they can all come to an end from there without any more cancellation, and
-- in the end the client's table has no entry for any host.
pub acquire-ends :
    (n : ℤ) (ks : List Text) (s : Fetches)
    → Reach (host_concurrency n) (begun ks) s
    → (d : Sems) × ((zs : List Fetching) × (Runs (host_concurrency n) s.sems s.threads d zs
          × (All (λ t. t ≡ ended) zs × ((k : Text) → d.table k ≡ none))))
acquire-ends n ks s r =
    let o =
      runs_out (host_concurrency n) (some_room n) (total s.threads) s.sems s.threads (omega arith)
        (Reach-IsSafe (begun-IsSafe _ ks) r) in
    (o.d, (o.zs, (o.run, (o.over, o.empty))))
