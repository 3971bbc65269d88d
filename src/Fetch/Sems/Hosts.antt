-- ===== src/Fetch/Sems/Hosts.antt =====
-- What the invariant says of the fetches of one host.
use bfeed.Base.{
  ℕ, ◌≤◌, ◌≡◌, refl, ap, sym, Bool, true, false, Option, none, some, List, [], ◌∷◌, count,
  Option-cases, ◌↔◌, inl, inr, arith,
}
use bfeed.Base.Text.{Text, text_eq, text_eq_refl, eq_of_text_eq}
use bfeed.Fetch.Sems.{
  Sems, Fetching, ready, waiting, holding, leaving, ended, Fetches, Reach, begun,
}
use bfeed.Fetch.Sems.Counting.{count-le_of}
use bfeed.Fetch.Sems.Invariant.{
  holds, refers, holds_key, uses_key, IsListed, IsSafe, Reach-IsSafe, begun-IsSafe,
}

abbrev never : Fetching → Bool
never t = false

count-never : (ts : List Fetching) → count never ts ≡ 0
count-never [] = refl
count-never (t ∷ ts) = count-never ts

-- A fetch of the host refers to the semaphore that the table has for it.
module _ (m : Text → Option ℕ) (k : Text) where
  same_place :
      (o : Option ℕ) (l : Text) (q : ℕ) → m k ≡ o → m l ≡ some q → text_eq k l ≡ true → o ≡ some q
  same_place o l q e h t = ground (arith, e, h, ap m (eq_of_text_eq k l t))

  found :
      (p : ℕ)
      → m k ≡ some p
      → (t : Fetching) → IsListed m t
      → holds_key k t ≡ true
      → holds p t ≡ true
  found p e (ready l) h t = cc
  found p e (waiting l q) h t = cc
  found p e (leaving l q) h t = cc
  found p e ended h t = cc
  found p e (holding l q) h t = let i = same_place (some p) l q e h t in ground (arith, i)

  absent : m k ≡ none → (t : Fetching) → IsListed m t → uses_key k t ≡ true → never t ≡ true
  absent e (ready l) h t = cc
  absent e (waiting l q) h t = let i = same_place none l q e h t in cc
  absent e (holding l q) h t = let i = same_place none l q e h t in cc
  absent e (leaving l q) h t = let i = same_place none l q e h t in cc
  absent e ended h t = cc

  holds-uses : (t : Fetching) → Unit {0} → holds_key k t ≡ true → uses_key k t ≡ true
  holds-uses (ready l) u t = cc
  holds-uses (waiting l q) u t = cc
  holds-uses (holding l q) u t = t
  holds-uses (leaving l q) u t = cc
  holds-uses ended u t = cc

-- A fetch that refers to the semaphore of the host is of the host.
of_host :
    {m : Text → Option ℕ} (own : (k l : Text) (p : ℕ) → m k ≡ some p → m l ≡ some p → k ≡ l)
    (k : Text) (p : ℕ)
    → m k ≡ some p
    → (t : Fetching) → IsListed m t
    → refers p t ≡ true
    → uses_key k t ≡ true
of_host own k p e (ready l) h r = cc
of_host own k p e ended h r = cc
of_host own k p e (waiting l q) h r =
    let i = own k l p e (ground (arith, h, r)) in rw (sym i) (text_eq_refl k)
of_host own k p e (holding l q) h r =
    let i = own k l p e (ground (arith, h, r)) in rw (sym i) (text_eq_refl k)
of_host own k p e (leaving l q) h r =
    let i = own k l p e (ground (arith, h, r)) in rw (sym i) (text_eq_refl k)

module _ {cap : ℕ} {c : Sems} {ts : List Fetching} (s : IsSafe cap c ts) (k : Text) where
  no_more : count (holds_key k) ts ≤ cap
  no_more = elim (Option-cases (c.table k)) [
    | inr (p, e) ↦ omega (
      arith,
      count-le_of (IsListed c.table) (holds_key k) (holds p) ts (found c.table k p e) s.listed,
      s.tokens p,
      s.room p,
    )
    | inl e ↦ omega (
      arith,
      count-le_of _ (holds_key k) never ts
          (λ t h u. absent c.table k e t h (holds-uses c.table k t tt u)) s.listed,
      count-never ts,
    )
  ]

  unused : c.table k ≡ none → count (uses_key k) ts ≡ 0
  unused e = omega (
    arith,
    count-le_of (IsListed c.table) (uses_key k) never ts (absent c.table k e) s.listed,
    count-never ts,
  )

  pub gone : count (uses_key k) ts ≡ 0 → c.table k ≡ none
  gone n = elim (Option-cases (c.table k)) [
    | inl e ↦ e
    | inr (p, e) ↦ absurd (
        omega (
          arith,
          n,
          count-le_of (IsListed c.table) (refers p) (uses_key k) ts (of_host s.owner k p e)
              s.listed,
          s.refs p,
          (s.used k p e).0,
        ))
  ]

-- However many fetches run side by side, each may be cancelled while it waits, and whatever the order of their
-- steps: at most `cap` of them hold a token of one host, and the client's table has an entry for a
-- host exactly while some fetch waits for a token of the host, holds one, or is about to give its reference up.
pub acquire-IsBounded :
    (cap : ℕ) (ks : List Text) (s : Fetches)
    → Reach cap (begun ks) s
    → (k : Text)
    → (count (holds_key k) s.threads ≤ cap)
      × ((s.sems.table k ≡ none) ↔ (count (uses_key k) s.threads ≡ 0))
acquire-IsBounded cap ks s r k =
    let h = Reach-IsSafe (begun-IsSafe cap ks) r in (no_more h k, (unused h k, gone h k))
