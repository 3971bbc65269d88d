-- ===== src/Core/Feed/Invariance/Poll.antt =====
-- `PollFeed` and an invariant of the environment that every port keeps.
use bfeed.Base.{Bool, Option, none, some, List, [], ◌∷◌}
use bfeed.Base.Text.{Text}
use bfeed.Base.Exec.Ensures.{
  Keeps, Keeps-pure, Keeps-if, Keeps-bind, Keeps-recover_with, Keeps-deferred,
}
use bfeed.Core.Types.{Time, Error, Result, ok, err, Feed}
use bfeed.Core.Ports.{FetchResponse, ParsedFeed}
use bfeed.Core.Feed.World.{FeedService}
use bfeed.Core.Feed.Poll
use bfeed.Core.Feed.Poll.{Resolved}
use bfeed.Core.Feed.Invariance.{
  PortsKeep, OnEnv, world_rules, call-Keeps, get_snapshot-Keeps, change-Keeps, clock_now-Keeps,
  ctx_done-Keeps, observe_if_counted-OnEnv, record_error_emit-Keeps, record_panic-Keeps,
  record_success-Keeps,
}

module _ {S F U : Type 0} {I : S → Type 0} (s : FeedService S F U) (p : PortsKeep I s) where
  after_adopt-Keeps : (u : Text) (r : Result (Unit {0})) → Keeps (OnEnv I) (Poll.after_adopt s u r)
  unfolding Poll.after_adopt
  after_adopt-Keeps u (err e) = search world_rules
  after_adopt-Keeps u (ok _) = change-Keeps _

  adopt-Keeps : (resp : FetchResponse) → Keeps (OnEnv I) (Poll.adopt_permanent_redirect s resp)
  unfolding Poll.adopt_permanent_redirect
  adopt-Keeps resp = Keeps-bind _ _ get_snapshot-Keeps λ f. Keeps-if _ _ _ (Keeps-pure _) (
      Keeps-bind _ _ (clock_now-Keeps s p)
        λ now. Keeps-bind _ _ (call-Keeps _ (p.set_feed_url _ _ _ _)) λ r. after_adopt-Keeps _ r)

  discovered_fetch-Keeps :
      (u : Text) (r : Result FetchResponse) → Keeps (OnEnv I) (Poll.discovered_fetch s u r)
  unfolding Poll.discovered_fetch
  discovered_fetch-Keeps u (err e) = search world_rules
  discovered_fetch-Keeps u (ok resp) = search (world_rules, p.parse) depth 12

  discovered-Keeps : (r : Result (List Text)) → Keeps (OnEnv I) (Poll.discovered s r)
  unfolding Poll.discovered
  discovered-Keeps (err e) = search world_rules
  discovered-Keeps (ok []) = search world_rules
  discovered-Keeps (ok (u ∷ us)) = search (world_rules, p.fetch, discovered_fetch-Keeps) depth 12

  discover-Keeps : (u : Text) (resp : FetchResponse) → Keeps (OnEnv I) (Poll.discover s u resp)
  unfolding Poll.discover
  discover-Keeps u resp = search (world_rules, p.discover, discovered-Keeps) depth 12

  parsed_or_discover-Keeps :
      (raw : Text) (resp : FetchResponse) (r : Result (Option ParsedFeed))
      → Keeps (OnEnv I) (Poll.parsed_or_discover s raw resp r)
  unfolding Poll.parsed_or_discover
  parsed_or_discover-Keeps raw resp (ok (some pf)) = search world_rules
  parsed_or_discover-Keeps raw resp (ok none) = discover-Keeps _ resp
  parsed_or_discover-Keeps raw resp (err e) = discover-Keeps _ resp

  fetched-Keeps : (raw : Text) (r : Result FetchResponse) → Keeps (OnEnv I) (Poll.fetched s raw r)
  unfolding Poll.fetched
  fetched-Keeps raw (err e) = search world_rules
  fetched-Keeps raw (ok resp) = search (world_rules, p.parse, parsed_or_discover-Keeps) depth 12

  resolve_feed-Keeps : (raw : Text) → Keeps (OnEnv I) (Poll.resolve_feed s raw)
  unfolding Poll.resolve_feed
  resolve_feed-Keeps raw = search (world_rules, p.fetch, fetched-Keeps) depth 12

  after_delete-Keeps : (r : Result (Unit {0})) → Keeps (OnEnv I) (Poll.after_delete s r)
  unfolding Poll.after_delete
  after_delete-Keeps (ok _) = search world_rules depth 12
  after_delete-Keeps (err e) =
      search (world_rules, clock_now-Keeps s p, record_error_emit-Keeps s p) depth 12

  after_set_url-Keeps :
      (r : Resolved) (f : Feed) (u : Result (Unit {0}))
      → Keeps (OnEnv I) (Poll.after_set_url s r f u)
  unfolding Poll.after_set_url
  after_set_url-Keeps r f (ok _) =
      Keeps-bind _ _ (change-Keeps _)
        λ u. Keeps-bind _ _ (clock_now-Keeps s p) λ now. record_success-Keeps s p now _ _
  after_set_url-Keeps r f (err e) =
      Keeps-if _ _ _ (Keeps-bind _ _ (call-Keeps _ (p.delete_feed _ _)) λ d. after_delete-Keeps d)
        (Keeps-bind _ _ (clock_now-Keeps s p) λ now. record_error_emit-Keeps s p now _ _ _ _ _)

  resolved-Keeps : (r : Result Resolved) → Keeps (OnEnv I) (Poll.resolved s r)
  unfolding Poll.resolved
  resolved-Keeps (err e) =
      search (world_rules, clock_now-Keeps s p, record_error_emit-Keeps s p) depth 12
  resolved-Keeps (ok r) = Keeps-bind _ _ get_snapshot-Keeps λ f.
      Keeps-if _ _ _ (Keeps-bind _ _ (clock_now-Keeps s p) λ now. record_success-Keeps s p now _ _)
        (Keeps-bind _ _ (clock_now-Keeps s p) λ now.
          Keeps-bind _ _ (call-Keeps _ (p.set_feed_url _ _ _ _)) λ u. after_set_url-Keeps r f u)

  resolve_and_ingest-Keeps : Keeps (OnEnv I) (Poll.resolve_and_ingest s)
  unfolding Poll.resolve_and_ingest Poll.resolve_body
  resolve_and_ingest-Keeps =
      Keeps-recover_with _ _ (search (world_rules, resolve_feed-Keeps, resolved-Keeps) depth 12)
        (record_panic-Keeps s p)

  fetch_failed-Keeps :
      (start : Time) (e : Error) (stopped : Bool)
      → Keeps (OnEnv I) (Poll.fetch_failed s start e stopped)
  unfolding Poll.fetch_failed
  fetch_failed-Keeps start e stopped = search (world_rules, record_error_emit-Keeps s p) depth 12

  polled-Keeps :
      (start : Time) (resp : FetchResponse) (r : Result (Option ParsedFeed))
      → Keeps (OnEnv I) (Poll.polled s start resp r)
  unfolding Poll.polled
  polled-Keeps start resp (ok pf) = record_success-Keeps s p start resp pf
  polled-Keeps start resp (err e) =
      search (world_rules, resolve_and_ingest-Keeps, record_error_emit-Keeps s p) depth 12

  answered-Keeps :
      (start : Time) (r : Result FetchResponse) → Keeps (OnEnv I) (Poll.answered s start r)
  unfolding Poll.answered Poll.http_failed
  answered-Keeps start (err e) =
      search (world_rules, ctx_done-Keeps s p, fetch_failed-Keeps) depth 12
  answered-Keeps start (ok resp) =
      search
        (
          world_rules,
          adopt-Keeps,
          record_success-Keeps s p,
          record_error_emit-Keeps s p,
          p.parse,
          polled-Keeps,
        )
        depth 20

  poll_body-Keeps : (start : Time) → Keeps (OnEnv I) (Poll.poll_body s start)
  unfolding Poll.poll_body
  poll_body-Keeps start = search (world_rules, p.fetch, answered-Keeps) depth 12

  -- An attempt keeps what every port keeps, on every path, panics included.
  pub poll_feed-Keeps : Keeps (OnEnv I) (Poll.poll_feed s)
  unfolding Poll.poll_feed
  poll_feed-Keeps = Keeps-bind _ _ (clock_now-Keeps s p) λ start.
      Keeps-bind _ _ (search world_rules) λ u.
        Keeps-deferred _ _ (Keeps-recover_with _ _ (poll_body-Keeps start) (record_panic-Keeps s p))
          (observe_if_counted-OnEnv s p start)
