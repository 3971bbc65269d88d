-- ===== src/Web/Background.antt =====
-- inflight.go, and `startBackground` of handlers.go: the background operations on feeds, each a
-- goroutine of its own.
pub mod Exclusive
use bfeed.Base.{ℕ, ◌+◌, ◌-◌, ◌≡◌, ◌==◌, if◌then◌else◌, Bool, true, false, List, [], ◌∷◌, ◌++◌}
use bfeed.Base.Int.{eq_ℤ}
use bfeed.Core.Types.{RowId}

-- `inflightSet`
abbrev pub InflightSet : Type 0
InflightSet = RowId → Bool

-- `has`
unfoldable pub has : RowId → InflightSet → Bool
has id s = s id

-- `start`
unfoldable pub start : RowId → InflightSet → Bool × InflightSet
start id s = if s id then (false, s) else (true, λ j. if eq_ℤ id j then true else s j)

-- `done`
unfoldable pub done : RowId → InflightSet → InflightSet
done id s = λ j. if eq_ℤ id j then false else s j

-- Where `startBackground` stands for one call: the feed is marked, the goroutine is registered, or the feed is no
-- longer marked. An operation that panics takes the same way as one that returns, since its cleanup
-- is deferred.
pub data Op : Type 0 where
  marked running cleaning : RowId → Op
  ended : Op

-- `busy`, and `bgOps` with its counter.
pub record Handler : Type 0 where
  pub busy : InflightSet
  pub bg_ops : ℕ
  pub ops : List Op

abbrev pub begun : RowId → Handler → Bool × InflightSet → Handler
begun id h (false, s) = h
begun id h (true, s) = record h { busy = s; ops = marked id ∷ h.ops }

-- A request: a second one for a feed in flight does nothing.
unfoldable pub request : RowId → Handler → Handler
unfolding start
request id h = begun id h (start id h.busy)

-- `h.bgOps.Add(1)`, the end of the operation with `h.busy.done`, and `h.bgOps.Done`.
pub data Step : Handler → Handler → Type 0 where
  requests : {h : Handler} (id : RowId) → Step h (request id h)
  registers :
      {s : InflightSet} {n : ℕ} (xs : List Op) (id : RowId) (ys : List Op)
      → Step
          (record { busy = s; bg_ops = n; ops = xs ++ (marked id ∷ ys) })
          (record { busy = s; bg_ops = n + 1; ops = xs ++ (running id ∷ ys) })
  completes :
      {s : InflightSet} {n : ℕ} (xs : List Op) (id : RowId) (ys : List Op)
      → Step
          (record { busy = s; bg_ops = n; ops = xs ++ (running id ∷ ys) })
          (record { busy = done id s; bg_ops = n; ops = xs ++ (cleaning id ∷ ys) })
  leaves :
      {s : InflightSet} {n : ℕ} (xs : List Op) (id : RowId) (ys : List Op)
      → Step
          (record { busy = s; bg_ops = n; ops = xs ++ (cleaning id ∷ ys) })
          (record { busy = s; bg_ops = n - 1; ops = xs ++ (ended ∷ ys) })

pub data Reach : Handler → Type 0 where
  fresh : Reach (record { busy = λ id. false; bg_ops = 0; ops = [] })
  later : {h k : Handler} → Reach h → Step h k → Reach k

-- `Drain` can return true.
unfoldable pub is_drained : Handler → Bool
is_drained h = h.bg_ops == 0
