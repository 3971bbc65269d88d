-- ===== src/Core/Feed/Poll.antt =====
-- `PollFeed`, the resolve-and-discover path that it falls back to, and `ResolveAndIngest`.
use bfeed.Base.{
  ◌==◌, ltb, if◌then◌else◌, Bool, true, false, not, ◌&&◌, ◌||◌, Option, none, some, List, [], ◌∷◌,
  ◌++◌,
}
use bfeed.Base.Int.{pos}
use bfeed.Base.Text.{Text, text_eq, is_empty, codes}
use bfeed.Base.Exec.{pure, ◌>>=◌, ◌>>◌, recover_with, deferred}
use bfeed.Core.Types.{Time, Error, Result, ok, err, Feed, conflict, validation, errors_is}
use bfeed.Core.Metrics.{
  feed_poll_done, poll_success, poll_fetch_error, poll_http_error, poll_parse_error,
  poll_store_error, reason_internal, reason_parse, classify_http_status, classify_fetch_error,
  is_transient, ctx_shutdown_canceled,
}
use bfeed.Core.Ports.{FetchRequest, FetchResponse, ParsedFeed}
use bfeed.Core.Urls.{or_url, canonical_url, normalize_feed_url, is_html}
use bfeed.Core.Feed.World.{
  FeedService, call, get_snapshot, change, emit, set_counted, clock_now, ctx_done, observe,
  observe_if_counted,
}
use bfeed.Core.Feed.Record.{Op, record_error, record_error_emit, record_panic, record_success}

-- `fmt.Errorf("%w: ...", ErrValidation)`
abbrev pub invalid : Text → Error
invalid msg = record { chain = validation ∷ []; message = codes "validation failed: " ++ msg }

-- A feed that was resolved: its URL, what was parsed, and the response it came from.
pub record Resolved : Type 0 where
  pub url : Text
  pub parsed : Option ParsedFeed
  pub resp : FetchResponse

abbrev plain_request : Text → FetchRequest
plain_request url = record { url = url; etag = []; last_modified = [] }

module _ {S F U : Type 0} (s : FeedService S F U) where
  unfoldable pub after_adopt : Text → Result (Unit {0}) → Op s (Unit {0})
  after_adopt url (err e) = pure tt
  after_adopt url (ok _) = change (λ f. record f { feed_url = url; etag = []; last_modified = [] })

  -- `adoptPermanentRedirect`
  unfoldable pub adopt_permanent_redirect : FetchResponse → Op s (Unit {0})
  unfolding after_adopt
  adopt_permanent_redirect resp = do
    f ← get_snapshot
    if not resp.permanent_redirect || is_empty resp.final_url || text_eq resp.final_url f.feed_url
        then pure tt
        else do
          now ← clock_now s.clk
          r ← call (s.store.set_feed_url f.user_id f.id resp.final_url now)
          after_adopt resp.final_url r

  -- The end of `resolveFeed`: the discovered feed.
  discovered_parse : Text → FetchResponse → Result (Option ParsedFeed) → Result Resolved
  discovered_parse url resp (err e) = err (invalid (codes "discovered feed unparseable"))
  discovered_parse url resp (ok pf) = ok (record {
    url = normalize_feed_url s.urls s.strings (canonical_url url resp);
    parsed = pf;
    resp = resp;
  })

  unfoldable pub discovered_fetch : Text → Result FetchResponse → Op s (Result Resolved)
  unfolding discovered_parse
  discovered_fetch url (err e) = pure (err (invalid (codes "discovered feed unreachable")))
  discovered_fetch url (ok resp) =
      if not (resp.status == 200)
      then pure (err (invalid (codes "discovered feed unreachable")))
      else do
        r ← call (s.parser.parse resp.body resp.content_type (or_url resp.final_url url))
        pure (discovered_parse url resp r)

  unfoldable pub discovered : Result (List Text) → Op s (Result Resolved)
  unfolding discovered_fetch
  discovered (err e) = pure (err (invalid (codes "no feed found at URL")))
  discovered (ok []) = pure (err (invalid (codes "no feed found at URL")))
  discovered (ok (url ∷ urls)) = do
    r ← call (s.fetcher.fetch (plain_request url))
    discovered_fetch url r

  unfoldable pub discover : Text → FetchResponse → Op s (Result Resolved)
  unfolding discovered
  discover base resp = do urls ← call (s.parser.discover resp.body base); discovered urls

  unfoldable pub parsed_or_discover :
      Text → FetchResponse → Result (Option ParsedFeed) → Op s (Result Resolved)
  unfolding discover
  parsed_or_discover raw resp (ok (some pf)) = pure (
      ok (record {
        url = normalize_feed_url s.urls s.strings (canonical_url raw resp);
        parsed = some pf;
        resp = resp;
      }))
  parsed_or_discover raw resp (ok none) = discover (or_url resp.final_url raw) resp
  parsed_or_discover raw resp (err e) = discover (or_url resp.final_url raw) resp

  unfoldable pub fetched : Text → Result FetchResponse → Op s (Result Resolved)
  unfolding parsed_or_discover
  fetched raw (err e) = pure (
      err (record {
        chain = validation ∷ e.chain;
        message = codes "validation failed: fetch failed: " ++ e.message;
      }))
  fetched raw (ok resp) =
      if not (resp.status == 200) || is_empty resp.body
      then pure (err (invalid (codes "feed returned status " ++ s.strings.decimal resp.status)))
      else do
        r ← call (s.parser.parse resp.body resp.content_type (or_url resp.final_url raw))
        parsed_or_discover raw resp r

  -- `resolveFeed`
  unfoldable pub resolve_feed : Text → Op s (Result Resolved)
  unfolding fetched
  resolve_feed raw = do r ← call (s.fetcher.fetch (plain_request raw)); fetched raw r

  -- The duplicate row is deleted; if that fails too, the row becomes an error row.
  unfoldable pub after_delete : Result (Unit {0}) → Op s (Result (Unit {0}))
  after_delete (ok _) = do emit (feed_poll_done poll_success); pure (ok tt)
  after_delete (err e) = do
    now ← clock_now s.clk
    record_error s now (codes "already subscribed to this feed") (pos 0) poll_store_error
        reason_internal

  unfoldable pub after_set_url : Resolved → Feed → Result (Unit {0}) → Op s (Result (Unit {0}))
  unfolding after_delete
  after_set_url r f (ok _) = do
    change (λ g. record g { feed_url = r.url })
    now ← clock_now s.clk
    record_success s now r.resp r.parsed
  after_set_url r f (err e) =
      if errors_is e conflict
      then (do d ← call (s.store.delete_feed f.user_id f.id); after_delete d)
      else do
        now ← clock_now s.clk
        record_error s now e.message (pos 0) poll_store_error reason_internal

  unfoldable pub resolved : Result Resolved → Op s (Result (Unit {0}))
  unfolding after_set_url
  resolved (err e) = do
    now ← clock_now s.clk
    record_error s now e.message (pos 0) poll_fetch_error (classify_fetch_error e)
  resolved (ok r) = do
    f ← get_snapshot
    if text_eq r.url f.feed_url
        then (do now ← clock_now s.clk; record_success s now r.resp r.parsed)
        else do
          now ← clock_now s.clk
          e ← call (s.store.set_feed_url f.user_id f.id r.url now)
          after_set_url r f e

  -- The body of `resolveAndIngest`, before its `recover`.
  unfoldable pub resolve_body : Op s (Result (Unit {0}))
  unfolding resolved
  resolve_body = do f ← get_snapshot; r ← resolve_feed f.feed_url; resolved r

  -- `resolveAndIngest`
  unfoldable pub resolve_and_ingest : Op s (Result (Unit {0}))
  unfolding resolve_body
  resolve_and_ingest = recover_with resolve_body (record_panic s)

  -- `ResolveAndIngest`
  unfoldable pub resolve_and_ingest_timed : Op s (Result (Unit {0}))
  unfolding resolve_and_ingest
  resolve_and_ingest_timed = do
    start ← clock_now s.clk
    deferred resolve_and_ingest (observe s.clk start)

  unfoldable pub fetch_failed : Time → Error → Bool → Op s (Result (Unit {0}))
  fetch_failed start e stopped =
      let reason = classify_fetch_error e in
      if ctx_shutdown_canceled stopped e
      then (do
        set_counted false
        record_error_emit s start e.message (pos 0) poll_fetch_error reason false)
      else record_error s start e.message (pos 0) poll_fetch_error reason

  unfoldable pub http_failed : Time → FetchResponse → Op s (Result (Unit {0}))
  http_failed start resp =
      let reason = classify_http_status resp.status in
      record_error s start (codes "http " ++ s.strings.decimal resp.status)
        (if is_transient reason then resp.retry_after else pos 0) poll_http_error reason

  -- A feed with earlier errors whose URL serves HTML is resolved anew.
  unfoldable pub polled :
      Time → FetchResponse → Result (Option ParsedFeed) → Op s (Result (Unit {0}))
  polled start resp (ok pf) = record_success s start resp pf
  polled start resp (err e) = do
    f ← get_snapshot
    if is_html s.strings resp.content_type && ltb 0 f.error_count
        then resolve_and_ingest
        else record_error s start (codes "parse: " ++ e.message) (pos 0) poll_parse_error
            reason_parse

  unfoldable pub answered : Time → Result FetchResponse → Op s (Result (Unit {0}))
  unfolding fetch_failed http_failed polled
  answered start (err e) = do stopped ← ctx_done s.clk; fetch_failed start e stopped
  answered start (ok resp) =
      if resp.not_modified
      then (do adopt_permanent_redirect resp; record_success s start resp none)
      else if not (resp.status == 200)
      then http_failed start resp
      else do
        adopt_permanent_redirect resp
        f ← get_snapshot
        r ← call (s.parser.parse resp.body resp.content_type (or_url resp.final_url f.feed_url))
        polled start resp r

  -- The body of `PollFeed`, before its `recover`.
  unfoldable pub poll_body : Time → Op s (Result (Unit {0}))
  unfolding answered
  poll_body start = do
    f ← get_snapshot
    r ← call (
        s.fetcher.fetch
          (record { url = f.feed_url; etag = f.etag; last_modified = f.last_modified }))
    answered start r

  -- `PollFeed`
  unfoldable pub poll_feed : Op s (Result (Unit {0}))
  unfolding poll_body
  poll_feed = do
    start ← clock_now s.clk
    set_counted true
    deferred (recover_with (poll_body start) (record_panic s)) (observe_if_counted s.clk start)
