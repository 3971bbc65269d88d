-- ===== src/Tests/Web.antt =====
-- Two requests for one feed, and one for another.
use bfeed.Base.{◌≡◌, true, false, [], ◌∷◌, count}
use bfeed.Base.Int.{pos}
use bfeed.Core.Types.{RowId}
use bfeed.Fetch.Sems.Counting.{one}
use bfeed.Web.Background.{
  Handler, marked, cleaning, request, Reach, fresh, later, requests, registers, completes, start,
  done, is_drained,
}
use bfeed.Web.Background.Exclusive.{works_on, is_registered, start_background-IsExclusive}

abbrev nothing : Handler
nothing = record { busy = λ id. false; bg_ops = 0; ops = [] }

-- Feed 1 twice, then feed 2.
abbrev asked : Handler
asked = request (pos 2) (request (pos 1) (request (pos 1) nothing))

-- The operation on feed 1 has ended.
abbrev half_way : Handler
half_way = record {
  busy = done (pos 1) asked.busy;
  bg_ops = 1;
  ops = marked (pos 2) ∷ cleaning (pos 1) ∷ [];
}

half_way-Reach : Reach half_way
unfolding request start
half_way-Reach =
    later
      (later (later (later (later fresh (requests (pos 1))) (requests (pos 1))) (requests (pos 2)))
        (registers (marked (pos 2) ∷ []) (pos 1) []))
      (completes (marked (pos 2) ∷ []) (pos 1) [])

start_background-IsExclusive_example :
    ((id : RowId) → count (works_on id) half_way.ops ≡ one (half_way.busy id))
    × ((half_way.bg_ops ≡ count is_registered half_way.ops)
        × (is_drained half_way ≡ true → count is_registered half_way.ops ≡ 0))
start_background-IsExclusive_example = start_background-IsExclusive half_way half_way-Reach
