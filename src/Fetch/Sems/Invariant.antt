-- ===== src/Fetch/Sems/Invariant.antt =====
-- The invariant of the semaphores, and what it says of the fetches of one host.
use bfeed.Base.{
  ℕ, ◌+◌, ◌-◌, ◌≤◌, ◌<◌, ◌==◌, ◌≡◌, refl, ap, sym, ◌∙◌, Bool, false, Option, none, some, List, [],
  ◌∷◌, ◌++◌, count, Bool-cases, Option-cases, inl, inr, arith,
}
use bfeed.Base.Text.{Text, text_eq, text_eq_refl, eq_of_text_eq}
use bfeed.Store.Table.{All}
use bfeed.Store.Table.Order.{All-map}
use bfeed.Fetch.Sems.{
  Sems, join, put_token, take_token, unref, Fetching, ready, waiting, holding, leaving, ended, Move,
  joins, takes, releases, leaves, cancels, Fetches, Step, moves, Reach, here, later, no_sems,
  all_ready, set_key,
}
use bfeed.Fetch.Sems.Counting.{one, count-splice, All-splice, All-front, All-back, All-map_of_none}

abbrev pub holds : ℕ → Fetching → Bool
holds p (holding k q) = p == q
holds p _ = false

abbrev pub refers : ℕ → Fetching → Bool
refers p (waiting k q) = p == q
refers p (holding k q) = p == q
refers p (leaving k q) = p == q
refers p _ = false

-- The fetch holds a token of the host.
abbrev pub holds_key : Text → Fetching → Bool
holds_key k (holding l q) = text_eq k l
holds_key k _ = false

-- The table leads from the key of a fetch to its semaphore.
abbrev pub IsListed : (Text → Option ℕ) → Fetching → Type 0
IsListed m (waiting k p) = m k ≡ some p
IsListed m (holding k p) = m k ≡ some p
IsListed m (leaving k p) = m k ≡ some p
IsListed m _ = Unit

pub record IsSafe (cap : ℕ) (c : Sems) (ts : List Fetching) : Type 0 where
  pub tokens : (p : ℕ) → (c.heap p).tokens ≡ count (holds p) ts
  pub refs : (p : ℕ) → (c.heap p).refs ≡ count (refers p) ts
  pub room : (p : ℕ) → (c.heap p).tokens ≤ cap
  pub listed : All (IsListed c.table) ts
  pub used : (k : Text) (p : ℕ) → c.table k ≡ some p → (0 < (c.heap p).refs) × (p < c.next)
  pub owner : (k l : Text) (p : ℕ) → c.table k ≡ some p → c.table l ≡ some p → k ≡ l
  pub fresh : (p : ℕ) → c.next ≤ p → ((c.heap p).refs ≡ 0) × ((c.heap p).tokens ≡ 0)

module _ (m : Text → Option ℕ) (k : Text) where
  other_key :
      (p : ℕ) (l : Text) (q : ℕ)
      → m k ≡ some p
      → (p == q) ≡ false
      → m l ≡ some q
      → text_eq k l ≡ false
  other_key p l q e r h = elim (Bool-cases (text_eq k l)) [
    | inr t ↦ t
    | inl t ↦ absurd (ground (arith, e, r, h, ap m (eq_of_text_eq k l t)))
  ]

  -- A fetch that refers to another semaphore has another key.
  still_listed :
      (p : ℕ) (o : Option ℕ)
      → m k ≡ some p
      → (x : Fetching) → refers p x ≡ false
      → IsListed m x
      → IsListed (set_key k o m) x
  still_listed p o e (ready l) r h = tt
  still_listed p o e (waiting l q) r h = rw (other_key p l q e r h) h
  still_listed p o e (holding l q) r h = rw (other_key p l q e r h) h
  still_listed p o e (leaving l q) r h = rw (other_key p l q e r h) h
  still_listed p o e ended r h = tt

  -- A key that the table does not have is no fetch's key.
  new_key : (l : Text) (q : ℕ) → m k ≡ none → m l ≡ some q → text_eq k l ≡ false
  new_key l q e h = elim (Bool-cases (text_eq k l)) [
    | inr t ↦ t
    | inl t ↦ absurd (ground (arith, e, h, ap m (eq_of_text_eq k l t)))
  ]

  all_listed :
      (o : Option ℕ) → m k ≡ none → (x : Fetching) → IsListed m x → IsListed (set_key k o m) x
  all_listed o e (ready l) h = tt
  all_listed o e (waiting l q) h = rw (new_key l q e h) h
  all_listed o e (holding l q) h = rw (new_key l q e h) h
  all_listed o e (leaving l q) h = rw (new_key l q e h) h
  all_listed o e ended h = tt

-- The invariant with the fetch that moves apart.
record Apart (c : Sems) (xs ys : List Fetching) (t : Fetching) : Type 0 where
  tokens : (p : ℕ) → (c.heap p).tokens ≡ count (holds p) xs + count (holds p) ys + one (holds p t)
  refs : (p : ℕ) → (c.heap p).refs ≡ count (refers p) xs + count (refers p) ys + one (refers p t)
  front : All (IsListed c.table) xs
  self : IsListed c.table t
  back : All (IsListed c.table) ys

module _ {cap : ℕ} {c : Sems} (xs ys : List Fetching) where
  apart : (t : Fetching) → IsSafe cap c (xs ++ (t ∷ ys)) → Apart c xs ys t
  apart t s = record {
    tokens = λ p. omega (arith, s.tokens p, count-splice (holds p) xs t ys);
    refs = λ p. omega (arith, s.refs p, count-splice (refers p) xs t ys);
    front = All-front (IsListed c.table) xs (t ∷ ys) s.listed;
    self = (All-back (IsListed c.table) xs (t ∷ ys) s.listed).0;
    back = (All-back (IsListed c.table) xs (t ∷ ys) s.listed).1;
  }

  takes-IsSafe :
      (k : Text) (p : ℕ)
      → (c.heap p).tokens < cap
      → IsSafe cap c (xs ++ (waiting k p ∷ ys))
      → IsSafe cap (put_token p c) (xs ++ (holding k p ∷ ys))
  unfolding put_token
  takes-IsSafe k p h s =
      let a = apart (waiting k p) s in
      record {
        tokens = λ q. ground (arith, a.tokens q, count-splice (holds q) xs (holding k p) ys);
        refs = λ q. ground (arith, a.refs q, count-splice (refers q) xs (holding k p) ys);
        room = λ q. ground (arith, s.room q, h);
        listed = All-splice (IsListed c.table) xs (holding k p) ys a.front a.self a.back;
        used = λ l q e. ground (arith, s.used l q e);
        owner = s.owner;
        fresh = λ q n. ground (arith, s.fresh q n, s.used k p a.self);
      }

  releases-IsSafe :
      (k : Text) (p : ℕ)
      → IsSafe cap c (xs ++ (holding k p ∷ ys))
      → IsSafe cap (take_token p c) (xs ++ (leaving k p ∷ ys))
  unfolding take_token
  releases-IsSafe k p s =
      let a = apart (holding k p) s in
      record {
        tokens = λ q. ground (arith, a.tokens q, count-splice (holds q) xs (leaving k p) ys);
        refs = λ q. ground (arith, a.refs q, count-splice (refers q) xs (leaving k p) ys);
        room = λ q. ground (arith, s.room q);
        listed = All-splice (IsListed c.table) xs (leaving k p) ys a.front a.self a.back;
        used = λ l q e. ground (arith, s.used l q e);
        owner = s.owner;
        fresh = λ q n. ground (arith, s.fresh q n);
      }

  cancels-IsSafe :
      (k : Text) (p : ℕ)
      → IsSafe cap c (xs ++ (waiting k p ∷ ys))
      → IsSafe cap c (xs ++ (leaving k p ∷ ys))
  cancels-IsSafe k p s =
      let a = apart (waiting k p) s in
      record {
        tokens = λ q. ground (arith, a.tokens q, count-splice (holds q) xs (leaving k p) ys);
        refs = λ q. ground (arith, a.refs q, count-splice (refers q) xs (leaving k p) ys);
        room = s.room;
        listed = All-splice (IsListed c.table) xs (leaving k p) ys a.front a.self a.back;
        used = s.used;
        owner = s.owner;
        fresh = s.fresh;
      }

  leaves-IsSafe :
      (k : Text) (p : ℕ)
      → IsSafe cap c (xs ++ (leaving k p ∷ ys))
      → IsSafe cap (unref k p c) (xs ++ (ended ∷ ys))
  unfolding unref
  leaves-IsSafe k p s =
      let a = apart (leaving k p) s in
      elim (Bool-cases ((c.heap p).refs - 1 == 0)) [
        | inl e ↦ rw e (record {
          tokens = λ q. ground (arith, a.tokens q, count-splice (holds q) xs ended ys);
          refs = λ q. ground (arith, a.refs q, count-splice (refers q) xs ended ys);
          room = λ q. ground (arith, s.room q);
          listed =
              All-splice (IsListed (set_key k none c.table)) xs ended ys
                (All-map_of_none _ _ (refers p) xs (still_listed c.table k p none a.self)
                  (ground (arith, a.refs p, e)) a.front)
                tt
                (All-map_of_none _ _ (refers p) ys (still_listed c.table k p none a.self)
                  (ground (arith, a.refs p, e)) a.back);
          used = λ l q h. ground (arith, h, s.used l q, s.owner k l p a.self, text_eq_refl k);
          owner = λ l m q h i. ground (arith, h, i, s.owner l m q);
          fresh = λ q n. ground (arith, s.fresh q n);
        })
        | inr e ↦ rw e (record {
          tokens = λ q. ground (arith, a.tokens q, count-splice (holds q) xs ended ys);
          refs = λ q. ground (arith, a.refs q, count-splice (refers q) xs ended ys);
          room = λ q. ground (arith, s.room q);
          listed = All-splice (IsListed c.table) xs ended ys a.front tt a.back;
          used = λ l q h. ground (arith, e, s.used l q h);
          owner = s.owner;
          fresh = λ q n. ground (arith, s.fresh q n);
        })
      ]

  new_owner :
      (k : Text)
      → IsSafe cap c (xs ++ (ready k ∷ ys))
      → c.table k ≡ none
      → (l m : Text) (q : ℕ) → set_key k (some c.next) c.table l ≡ some q
      → set_key k (some c.next) c.table m ≡ some q
      → l ≡ m
  new_owner k s e l m q h i = elim (Bool-cases (text_eq k l)) [
    | inl t ↦ elim (Bool-cases (text_eq k m)) [
      | inl u ↦ sym (eq_of_text_eq k l t) ∙ eq_of_text_eq k m u
      | inr u ↦ absurd (ground (arith, h, i, t, u, s.used m q))
    ]
    | inr t ↦ elim (Bool-cases (text_eq k m)) [
      | inl u ↦ absurd (ground (arith, h, i, t, u, s.used l q))
      | inr u ↦ s.owner l m q (ground (arith, h, t)) (ground (arith, i, u))
    ]
  ]

  joins-IsSafe :
      (k : Text)
      → IsSafe cap c (xs ++ (ready k ∷ ys))
      → IsSafe cap (join k c).1 (xs ++ (waiting k (join k c).0 ∷ ys))
  unfolding join
  joins-IsSafe k s =
      let a = apart (ready k) s in
      elim (Option-cases (c.table k)) [
        | inr (p, e) ↦
            rw (e, join)
              (record {
                tokens =
                    λ q. ground (arith, a.tokens q, count-splice (holds q) xs (waiting k p) ys);
                refs = λ q. ground (arith, a.refs q, count-splice (refers q) xs (waiting k p) ys);
                room = λ q. ground (arith, s.room q);
                listed = All-splice (IsListed c.table) xs (waiting k p) ys a.front e a.back;
                used = λ l q h. ground (arith, s.used l q h);
                owner = s.owner;
                fresh = λ q n. ground (arith, s.fresh q n, s.used k p e);
              })
        | inl e ↦
            rw (e, join)
              (record {
                tokens = λ q.
                    ground (
                      arith,
                      a.tokens q,
                      s.fresh q,
                      count-splice (holds q) xs (waiting k c.next) ys,
                    );
                refs = λ q.
                    ground (
                      arith,
                      a.refs q,
                      s.fresh q,
                      count-splice (refers q) xs (waiting k c.next) ys,
                    );
                room = λ q. ground (arith, s.room q);
                listed =
                    All-splice (IsListed (set_key k (some c.next) c.table)) xs (waiting k c.next) ys
                      (All-map _ _ xs (all_listed c.table k _ e) a.front) (rw (text_eq_refl k) refl)
                      (All-map _ _ ys (all_listed c.table k _ e) a.back);
                used = λ l q h. ground (arith, h, s.used l q);
                owner = λ l m q h i. new_owner k s e l m q h i;
                fresh = λ q n. ground (arith, s.fresh q);
              })
      ]

module _ {cap : ℕ} where
  pub Move-IsSafe :
      {c d : Sems} {t u : Fetching} (xs ys : List Fetching)
      → Move cap c t d u
      → IsSafe cap c (xs ++ (t ∷ ys))
      → IsSafe cap d (xs ++ (u ∷ ys))
  Move-IsSafe xs ys (joins k) s = joins-IsSafe xs ys k s
  Move-IsSafe xs ys (takes k p h) s = takes-IsSafe xs ys k p h s
  Move-IsSafe xs ys (releases k p) s = releases-IsSafe xs ys k p s
  Move-IsSafe xs ys (leaves k p) s = leaves-IsSafe xs ys k p s
  Move-IsSafe xs ys (cancels k p) s = cancels-IsSafe xs ys k p s

  pub Step-IsSafe :
      {s t : Fetches} → Step cap s t → IsSafe cap s.sems s.threads → IsSafe cap t.sems t.threads
  Step-IsSafe (moves xs ys mv) h = Move-IsSafe xs ys mv h

  pub Reach-IsSafe :
      {s t : Fetches} → IsSafe cap s.sems s.threads → Reach cap s t → IsSafe cap t.sems t.threads
  Reach-IsSafe h here = h
  Reach-IsSafe h (later r st) = Step-IsSafe st (Reach-IsSafe h r)

count_none :
    (p : Fetching → Bool)
    → ((k : Text) → p (ready k) ≡ false)
    → (ks : List Text) → count p (all_ready ks) ≡ 0
count_none p h [] = refl
count_none p h (k ∷ ks) = ground (arith, h k, count_none p h ks)

listed_none : (m : Text → Option ℕ) (ks : List Text) → All (IsListed m) (all_ready ks)
listed_none m [] = tt
listed_none m (k ∷ ks) = (tt, listed_none m ks)

pub begun-IsSafe : (cap : ℕ) (ks : List Text) → IsSafe cap no_sems (all_ready ks)
begun-IsSafe cap ks = record {
  tokens = λ p. rw (count_none (holds p) (λ k. refl) ks) refl;
  refs = λ p. rw (count_none (refers p) (λ k. refl) ks) refl;
  room = λ p. omega arith;
  listed = listed_none no_sems.table ks;
  used = λ k p e. absurd (ground (arith, e));
  owner = λ k l p e f. absurd (ground (arith, e));
  fresh = λ p n. (refl, refl);
}

-- Whether some fetch has to do with the host's semaphore.
abbrev pub uses_key : Text → Fetching → Bool
uses_key k (waiting l p) = text_eq k l
uses_key k (holding l p) = text_eq k l
uses_key k (leaving l p) = text_eq k l
uses_key k _ = false
