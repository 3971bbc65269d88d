-- ===== src/Core/Feed/Pairing/Poll.antt =====
-- The pairing for `PollFeed`, with its resolve-and-discover path.
use bfeed.Base.{ℕ, ◌≡◌, refl, Bool, true, false, Option, none, some, List, [], ◌∷◌, arith}
use bfeed.Base.Text.{Text}
use bfeed.Base.Exec.{◌>>=◌, recover_with}
use bfeed.Base.Exec.Tally.{
  IsSilent, IsOnce, IsTotal, IsOnce-if, IsOnce-recover_with, IsTotal-recover_with, Ends-of_returned,
  score, total_rules, silent_rules,
}
use bfeed.Core.Types.{Error, Feed, Time, Duration, Result, ok, err}
use bfeed.Base.Int.{pos}
use bfeed.Core.Metrics.{PollResult, ErrorReason, poll_fetch_error}
use bfeed.Core.Ports.{FetchResponse, ParsedFeed, Ctx}
use bfeed.Core.Feed.World.{World, FeedService, call, set_counted}
use bfeed.Core.Feed.Record.{record_error_emit, record_panic}
use bfeed.Core.Feed.Poll.{
  Resolved, adopt_permanent_redirect, after_adopt, discovered_fetch, discovered, discover,
  parsed_or_discover, fetched, resolve_feed, after_delete, after_set_url, resolved,
  resolve_and_ingest, fetch_failed, http_failed, polled, answered, poll_body,
}
use bfeed.Core.Feed.Pairing.Record.{
  reports, Attempt, Observed, effects, port_rules, report_rules, record_error-IsOnce,
  record_panic-IsOnce, record_success-IsOnce,
}

module _ {S F U : Type 0} (s : FeedService S F U) {b : Bool} {k : ℕ} where
  after_adopt-IsSilent :
      (url : Text) (r : Result (Unit {0})) → IsSilent (Attempt b k) reports (after_adopt s url r)
  unfolding after_adopt
  after_adopt-IsSilent url (ok _) = search port_rules
  after_adopt-IsSilent url (err e) = search silent_rules

  adopt-IsSilent :
      (resp : FetchResponse) → IsSilent (Attempt b k) reports (adopt_permanent_redirect s resp)
  unfolding adopt_permanent_redirect
  adopt-IsSilent resp = search (silent_rules, port_rules, after_adopt-IsSilent) depth 12

  discovered_fetch-IsSilent :
      (url : Text) (r : Result FetchResponse)
      → IsSilent (Attempt b k) reports (discovered_fetch s url r)
  unfolding discovered_fetch
  discovered_fetch-IsSilent url (ok resp) = search (silent_rules, port_rules) depth 12
  discovered_fetch-IsSilent url (err e) = search silent_rules

  discovered-IsSilent : (r : Result (List Text)) → IsSilent (Attempt b k) reports (discovered s r)
  unfolding discovered
  discovered-IsSilent (ok (url ∷ urls)) =
      search (silent_rules, port_rules, discovered_fetch-IsSilent) depth 12
  discovered-IsSilent (ok []) = search silent_rules
  discovered-IsSilent (err e) = search silent_rules

  discover-IsSilent :
      (base : Text) (resp : FetchResponse) → IsSilent (Attempt b k) reports (discover s base resp)
  unfolding discover
  discover-IsSilent base resp = search (silent_rules, port_rules, discovered-IsSilent) depth 12

  parsed_or_discover-IsSilent :
      (raw : Text) (resp : FetchResponse) (r : Result (Option ParsedFeed))
      → IsSilent (Attempt b k) reports (parsed_or_discover s raw resp r)
  unfolding parsed_or_discover
  parsed_or_discover-IsSilent raw resp (ok (some pf)) = search silent_rules
  parsed_or_discover-IsSilent raw resp (ok none) = search discover-IsSilent
  parsed_or_discover-IsSilent raw resp (err e) = search discover-IsSilent

  fetched-IsSilent :
      (raw : Text) (r : Result FetchResponse) → IsSilent (Attempt b k) reports (fetched s raw r)
  unfolding fetched
  fetched-IsSilent raw (ok resp) =
      search (silent_rules, port_rules, parsed_or_discover-IsSilent) depth 12
  fetched-IsSilent raw (err e) = search silent_rules

  resolve_feed-IsSilent : (raw : Text) → IsSilent (Attempt b k) reports (resolve_feed s raw)
  unfolding resolve_feed
  resolve_feed-IsSilent raw = search (silent_rules, port_rules, fetched-IsSilent) depth 12

  ruleset resolve_rules =
      (report_rules, record_error-IsOnce, record_success-IsOnce, record_panic-IsOnce)

  after_delete-IsOnce :
      (r : Result (Unit {0})) → IsOnce (Attempt b k) (Observed k) reports (after_delete s r)
  unfolding after_delete
  after_delete-IsOnce (ok _) = search report_rules
  after_delete-IsOnce (err e) = search resolve_rules depth 12

  after_set_url-IsOnce :
      (r : Resolved) (f : Feed) (e : Result (Unit {0}))
      → IsOnce (Attempt b k) (Observed k) reports (after_set_url s r f e)
  unfolding after_set_url
  after_set_url-IsOnce r f (ok _) = search resolve_rules depth 12
  after_set_url-IsOnce r f (err e) = search (resolve_rules, after_delete-IsOnce) depth 12

  resolved-IsOnce : (r : Result Resolved) → IsOnce (Attempt b k) (Observed k) reports (resolved s r)
  unfolding resolved
  resolved-IsOnce (ok r) = search (resolve_rules, after_set_url-IsOnce) depth 12
  resolved-IsOnce (err e) = search resolve_rules depth 12

  pub resolve_and_ingest-IsOnce : IsOnce (Attempt b k) (Observed k) reports (resolve_and_ingest s)
  unfolding resolve_and_ingest
  resolve_and_ingest-IsOnce =
      search (resolve_rules, resolve_feed-IsSilent, resolved-IsOnce) depth 12

  http_failed-IsOnce :
      (start : Time) (resp : FetchResponse)
      → IsOnce (Attempt b k) (Observed k) reports (http_failed s start resp)
  unfolding http_failed
  http_failed-IsOnce start resp = search (record_error-IsOnce)

  polled-IsOnce :
      (start : Time) (resp : FetchResponse) (r : Result (Option ParsedFeed))
      → IsOnce (Attempt b k) (Observed k) reports (polled s start resp r)
  unfolding polled
  polled-IsOnce start resp (ok pf) = search (record_success-IsOnce)
  polled-IsOnce start resp (err e) = search (resolve_rules, resolve_and_ingest-IsOnce) depth 12

-- The store's `UpdateFeed` does not panic.
abbrev pub UpdateReturns : {S F U : Type 0} → FeedService S F U → Type 0
UpdateReturns {S} s = (c : Ctx) (f : Feed) (e : S) → score (s.store.update_feed c f e).0 ≡ 1

module _ {S F U : Type 0} (s : FeedService S F U) (returns : UpdateReturns s) where
  update-IsTotal : (c : Ctx) (f : Feed) → IsTotal (call (s.store.update_feed c f))
  unfolding call
  update-IsTotal c f = record { at = λ w. returns c f w.env }

  record_error-IsTotal :
      (now : Time) (msg : Text) (retry : Duration) (result : PollResult) (reason : ErrorReason)
      (emitted : Bool)
      → IsTotal (record_error_emit s now msg retry result reason emitted)
  unfolding record_error_emit
  record_error-IsTotal now msg retry result reason emitted =
      search (total_rules, effects, update-IsTotal) depth 12

  record_panic-IsTotal : (r : Text) → IsTotal (record_panic s r)
  unfolding record_panic
  record_panic-IsTotal r = search (total_rules, effects, record_error-IsTotal) depth 12

  unreported-IsSilent :
      {b : Bool} {k : ℕ} (now : Time) (msg : Text) (retry : Duration) (result : PollResult)
      (reason : ErrorReason)
      → IsSilent (Attempt b k) reports (record_error_emit s now msg retry result reason false)
  unfolding record_error_emit
  unreported-IsSilent now msg retry result reason = search (silent_rules, port_rules) depth 12

  -- The path of a stopped worker: nothing is reported, and the attempt is not counted.
  stopped-IsOnce :
      {k : ℕ} (now : Time) (msg : Text) (reason : ErrorReason)
      → IsOnce (Attempt true k) (Observed k) reports (
          set_counted false >>= λ _.
          record_error_emit s now msg (pos 0) poll_fetch_error reason false)
  unfolding set_counted ◌>>=◌
  stopped-IsOnce {k} now msg reason =
      let quiet = unreported-IsSilent {b = false} {k = k} now msg (pos 0) poll_fetch_error reason in
      let total = record_error-IsTotal now msg (pos 0) poll_fetch_error reason false in
      record {
        ends = λ w h.
            let w' : World S = record w { counted = false } in
            Ends-of_returned (Attempt true k) (Observed k)
              (record_error_emit s now msg (pos 0) poll_fetch_error reason false w') (total.at w')
              (quiet.keeps w' (refl, h.1)).1;
        at = λ w h.
            let w' : World S = record w { counted = false } in
            ground (arith, quiet.at w' (refl, h.1), total.at w', h.0);
      }

  fetch_failed-IsOnce :
      {k : ℕ} (start : Time) (e : Error) (stopped : Bool)
      → IsOnce (Attempt true k) (Observed k) reports (fetch_failed s start e stopped)
  unfolding fetch_failed
  fetch_failed-IsOnce start e stopped = search (IsOnce-if, stopped-IsOnce, record_error-IsOnce s)

  answered-IsOnce :
      {k : ℕ} (start : Time) (r : Result FetchResponse)
      → IsOnce (Attempt true k) (Observed k) reports (answered s start r)
  unfolding answered
  answered-IsOnce start (err e) = search (report_rules, fetch_failed-IsOnce) depth 12
  answered-IsOnce start (ok resp) =
      search
        (
          report_rules,
          adopt-IsSilent s,
          record_success-IsOnce s,
          http_failed-IsOnce s,
          polled-IsOnce s,
        )
        depth 12

  poll_body-IsOnce :
      {k : ℕ} (start : Time) → IsOnce (Attempt true k) (Observed k) reports (poll_body s start)
  unfolding poll_body
  poll_body-IsOnce start = search (report_rules, answered-IsOnce) depth 12

  pub guarded-IsOnce :
      {k : ℕ} (start : Time)
      → IsOnce
          (Attempt true k)
          (Observed k)
          reports
          (recover_with (poll_body s start) (record_panic s))
  guarded-IsOnce start = IsOnce-recover_with _ _ (poll_body-IsOnce start) (record_panic-IsOnce s)

  pub guarded-IsTotal : (start : Time) → IsTotal (recover_with (poll_body s start) (record_panic s))
  guarded-IsTotal start = IsTotal-recover_with _ _ record_panic-IsTotal
