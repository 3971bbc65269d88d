-- ===== src/Tests/Sems.antt =====
-- Two fetches of one host, on a client that lets one request at a time through.
use bfeed.Base.{◌≡◌, refl, none, List, [], ◌∷◌, count, ◌≤◌, ◌↔◌, arith}
use bfeed.Base.Int.{pos}
use bfeed.Base.Text.{Text, text_eq}
use bfeed.Store.Table.{All}
use bfeed.Fetch.Sems.{
  Sems, Fetching, ready, waiting, holding, ended, joins, takes, Fetches, Reach, here, later, moves,
  begun, join, put_token, no_sems, host_concurrency, take_token, unref,
}
use bfeed.Fetch.Sems.Invariant.{holds_key, uses_key}
use bfeed.Fetch.Sems.Hosts.{acquire-IsBounded}
use bfeed.Fetch.Sems.Progress.{acquire-ends, Runs}

abbrev host : Text
host = 104 ∷ []

abbrev one_joined : Sems
one_joined = (join host no_sems).1

abbrev one_in : Sems
one_in = put_token 0 one_joined

abbrev both_in : Fetches
both_in = record { sems = (join host one_in).1; threads = holding host 0 ∷ waiting host 0 ∷ [] }

Reach-both : Reach (host_concurrency (pos 1)) (begun (host ∷ host ∷ [])) both_in
unfolding join put_token host_concurrency text_eq
Reach-both =
    later
      (later (later here (moves [] (ready host ∷ []) (joins host)))
        (moves [] (ready host ∷ []) (takes host 0 (omega arith))))
      (moves (holding host 0 ∷ []) [] (joins host))

acquire-IsBounded_example :
    (count (holds_key host) both_in.threads ≤ host_concurrency (pos 1))
    × ((both_in.sems.table host ≡ none) ↔ (count (uses_key host) both_in.threads ≡ 0))
acquire-IsBounded_example =
    acquire-IsBounded (host_concurrency (pos 1)) (host ∷ host ∷ []) both_in Reach-both host

acquire-ends_example :
    (d : Sems) × ((zs : List Fetching) × (Runs
          (host_concurrency (pos 1))
          both_in.sems
          both_in.threads
          d
          zs
        × (All (λ t. t ≡ ended) zs × ((k : Text) → d.table k ≡ none))))
acquire-ends_example = acquire-ends (pos 1) (host ∷ host ∷ []) both_in Reach-both

-- The second fetch has the semaphore of the first, and both are counted.
second_shares : (join host one_in).0 ≡ 0
unfolding join put_token text_eq
second_shares = refl

-- When both have left, the entry is gone.
entry_goes : (unref host 0 (unref host 0 (take_token 0 both_in.sems))).table host ≡ none
unfolding join put_token unref take_token text_eq
entry_goes = refl
