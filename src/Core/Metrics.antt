-- ===== src/Core/Metrics.antt =====
-- internal/core/metrics.go: the closed label sets, the metrics port as a log, and the classifiers.
use bfeed.Base.{ℕ, ◌==◌, leb, if◌then◌else◌, Bool, true, false, ◌||◌, ◌&&◌}
use bfeed.Base.Int.{ℤ}
use bfeed.Core.Types.{
  Duration, Time, Error, errors_is, canceled, deadline_exceeded, net_timeout, dns, tls,
}

pub data PollResult : Type 0 where
  poll_success poll_not_modified poll_fetch_error poll_http_error : PollResult
  poll_parse_error poll_store_error poll_panic : PollResult

pub data ScrapeResult : Type 0 where
  scrape_success scrape_fetch_error scrape_http_error : ScrapeResult
  scrape_extract_error scrape_retried scrape_failed : ScrapeResult

pub data ErrorComponent : Type 0 where
  comp_feed_poll comp_article_scrape comp_db comp_http_server comp_image_proxy : ErrorComponent

pub data ErrorReason : Type 0 where
  reason_timeout reason_dns reason_tls reason_http_4xx reason_http_5xx : ErrorReason
  reason_rate_limited reason_parse reason_internal : ErrorReason

-- One call of the `Metrics` port. A service's log holds its calls, the newest first.
pub data Metric : Type 0 where
  feed_poll_done : PollResult → Metric
  observe_feed_poll : Duration → Metric
  scrape_done : ScrapeResult → Metric
  observe_article_scrape : Duration → Metric
  error_observed : ErrorComponent → ErrorReason → Metric
  add_poll_inflight : ℤ → Metric
  add_scrape_inflight : ℤ → Metric
  poller_ticked : Time → Metric
  scraper_ticked : Time → Metric

-- `classifyHTTPStatus`
unfoldable pub classify_http_status : ℕ → ErrorReason
classify_http_status status =
    if status == 429
    then reason_rate_limited
    else if leb 500 status
    then reason_http_5xx
    else if leb 400 status
    then reason_http_4xx
    else reason_internal

-- `reason == ReasonRateLimited || reason == ReasonHTTP5xx`
abbrev pub is_transient : ErrorReason → Bool
is_transient reason_rate_limited = true
is_transient reason_http_5xx = true
is_transient _ = false

-- `ClassifyFetchError`; the five TLS error types are one sentinel.
unfoldable pub classify_fetch_error : Error → ErrorReason
classify_fetch_error e =
    if errors_is e deadline_exceeded || errors_is e net_timeout
    then reason_timeout
    else if errors_is e dns
    then reason_dns
    else if errors_is e tls
    then reason_tls
    else reason_internal

-- `ctxShutdownCanceled`, after `ctx.Err() != nil` was read.
unfoldable pub ctx_shutdown_canceled : Bool → Error → Bool
ctx_shutdown_canceled ctx_done e = ctx_done && errors_is e canceled

-- The calls that a tally counts.
abbrev pub is_feed_poll_done : Metric → Bool
is_feed_poll_done (feed_poll_done r) = true
is_feed_poll_done _ = false

abbrev pub is_observe_feed_poll : Metric → Bool
is_observe_feed_poll (observe_feed_poll d) = true
is_observe_feed_poll _ = false

abbrev pub is_scrape_done : Metric → Bool
is_scrape_done (scrape_done r) = true
is_scrape_done _ = false

abbrev pub is_observe_article_scrape : Metric → Bool
is_observe_article_scrape (observe_article_scrape d) = true
is_observe_article_scrape _ = false

abbrev pub is_error_observed : Metric → Bool
is_error_observed (error_observed c r) = true
is_error_observed _ = false
