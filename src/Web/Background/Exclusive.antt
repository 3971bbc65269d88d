-- ===== src/Web/Background/Exclusive.antt =====
-- No feed has two background operations at once, and the wait group counts those that are left.
use bfeed.Base.{
  ◌≤◌, ◌≡◌, refl, if◌then◌else◌, Bool, true, false, ◌∷◌, count, Bool-cases, inl, inr, arith,
}
use mathlib.Core.Path.{subst}
use bfeed.Base.Int.{eq_ℤ, eq_of_eq_ℤ}
use bfeed.Core.Types.{RowId}
use bfeed.Fetch.Sems.Counting.{one, count-splice}
use bfeed.Web.Background.{
  start, done, Op, marked, running, cleaning, ended, Handler, request, Step, requests, registers,
  completes, leaves, Reach, fresh, later, is_drained,
}

-- The operation is on its way for the feed.
abbrev pub works_on : RowId → Op → Bool
works_on id (marked j) = eq_ℤ j id
works_on id (running j) = eq_ℤ j id
works_on id _ = false

-- Its goroutine has been registered and is not over.
abbrev pub is_registered : Op → Bool
is_registered (running j) = true
is_registered (cleaning j) = true
is_registered _ = false

pub record IsTracked (h : Handler) : Type 0 where
  pub exclusive : (id : RowId) → count (works_on id) h.ops ≡ one (h.busy id)
  pub counted : h.bg_ops ≡ count is_registered h.ops

request-IsTracked : (id : RowId) (h : Handler) → IsTracked h → IsTracked (request id h)
unfolding request start
request-IsTracked id h t = elim (Bool-cases (h.busy id)) [
  | inl b ↦ rw b t
  | inr b ↦ rw b (record { exclusive = marks b; counted = t.counted })
]
  where
    marks :
        h.busy id ≡ false
        → (j : RowId)
        → count (works_on j) (marked id ∷ h.ops) ≡ one (if eq_ℤ id j then true else h.busy j)
    marks b j = elim (Bool-cases (eq_ℤ id j)) [
      | inl e ↦ ground (arith, e, t.exclusive j, free b j e)
      | inr e ↦ ground (arith, e, t.exclusive j)
    ]
      where
        free : h.busy id ≡ false → (j : RowId) → eq_ℤ id j ≡ true → h.busy j ≡ false
        free b j e = subst (λ i. h.busy i ≡ false) (eq_of_eq_ℤ id j e) b

at_most_one : (b : Bool) → one b ≤ 1
at_most_one b = ground arith

Step-IsTracked : {h k : Handler} → Step h k → IsTracked h → IsTracked k
unfolding done
Step-IsTracked (requests {h} id) t = request-IsTracked id h t
Step-IsTracked (registers xs id ys) t = record {
  exclusive = λ j. ground (
    arith,
    t.exclusive j,
    count-splice (works_on j) xs (marked id) ys,
    count-splice (works_on j) xs (running id) ys,
  );
  counted = ground (
    arith,
    t.counted,
    count-splice is_registered xs (marked id) ys,
    count-splice is_registered xs (running id) ys,
  );
}
Step-IsTracked (completes {s} xs id ys) t = record {
  exclusive = λ j. ground (
    arith,
    t.exclusive j,
    at_most_one (s j),
    count-splice (works_on j) xs (cleaning id) ys,
    count-splice (works_on j) xs (running id) ys,
  );
  counted = ground (
    arith,
    t.counted,
    count-splice is_registered xs (cleaning id) ys,
    count-splice is_registered xs (running id) ys,
  );
}
Step-IsTracked (leaves xs id ys) t = record {
  exclusive = λ j. ground (
    arith,
    t.exclusive j,
    count-splice (works_on j) xs (cleaning id) ys,
    count-splice (works_on j) xs ended ys,
  );
  counted = ground (
    arith,
    t.counted,
    count-splice is_registered xs (cleaning id) ys,
    count-splice is_registered xs ended ys,
  );
}

Reach-IsTracked : {h : Handler} → Reach h → IsTracked h
Reach-IsTracked fresh = record { exclusive = λ j. refl; counted = refl }
Reach-IsTracked (later r s) = Step-IsTracked s (Reach-IsTracked r)

-- Whatever requests come and in whatever order the goroutines move: a feed has at most one background
-- operation on its way, and is marked as busy exactly while it has one. The wait group counts
-- the goroutines that are registered and not over, so that `Drain` returns true only when there is none.
pub start_background-IsExclusive :
    (h : Handler)
    → Reach h
    → ((id : RowId) → count (works_on id) h.ops ≡ one (h.busy id))
      × ((h.bg_ops ≡ count is_registered h.ops)
          × (is_drained h ≡ true → count is_registered h.ops ≡ 0))
unfolding is_drained
start_background-IsExclusive h r =
    let t = Reach-IsTracked r in (t.exclusive, (t.counted, λ d. ground (arith, t.counted, d)))
