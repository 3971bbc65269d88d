-- ===== src/Core/Scrape/Service.antt =====
-- `ScrapeEntry` and the ways in which an extraction fails or is put off.
use bfeed.Base.{
  ◌+◌, ◌*◌, ◌==◌, leb, if◌then◌else◌, Bool, true, false, not, Option, none, some, List, [], ◌∷◌,
  ◌++◌,
}
use bfeed.Base.Int.{pos, ◌+ℤ◌, ◌-ℤ◌, leb_ℤ, min_ℤ, max_ℤ}
use bfeed.Base.Text.{Text, is_empty, codes}
use bfeed.Base.Exec.{Step, returned, Exec, pure, ◌>>=◌, ◌>>◌, recover_with, deferred}
use bfeed.Core.Types.{Duration, Time, Error, Result, ok, err, Entry, pending, failed, minute, hour}
use bfeed.Core.Metrics.{
  Metric, ScrapeResult, ErrorReason, scrape_done, error_observed, observe_article_scrape,
  comp_article_scrape, scrape_success, scrape_fetch_error, scrape_http_error, scrape_extract_error,
  scrape_retried, scrape_failed, reason_parse, reason_internal, classify_http_status,
  classify_fetch_error, is_transient, ctx_shutdown_canceled,
}
use bfeed.Core.Ports.{Clock, Fetcher, FetchResponse, Extractor, Sanitizer, ScrapeStore, Strings}
use bfeed.Core.Urls.{or_url, is_html}
use bfeed.Core.Scrape.Backoff.{ScrapeConfig, extract_backoff}

pub record ScrapeService (S : Type 0) : Type 0 where
  pub store : ScrapeStore S
  pub fetcher : Fetcher S
  pub ext : Extractor S
  pub san : Sanitizer S
  pub clk : Clock S
  pub cfg : ScrapeConfig
  pub jitter : Option (Duration → Duration)
  pub strings : Strings

-- The normalisation of `NewScrapeService`.
unfoldable pub normalize_config : ScrapeConfig → ScrapeConfig
normalize_config c = record {
  max_attempts = if c.max_attempts == 0 then 3 else c.max_attempts;
  base_backoff = if leb_ℤ c.base_backoff (pos 0) then pos (10 * minute) else c.base_backoff;
  max_backoff = if leb_ℤ c.max_backoff (pos 0) then pos (24 * hour) else c.max_backoff;
}

-- The environment, the `counted` flag, and the calls of the metrics port, the newest first.
pub record Scrape (S : Type 0) : Type 0 where
  pub env : S
  pub counted : Bool
  pub metrics : List Metric

module _ {S A : Type 0} where
  abbrev on_env : Scrape S → Step A × S → Step A × Scrape S
  on_env w (r, s) = (r, record w { env = s })

  unfoldable pub call : Exec S A → Exec (Scrape S) A
  call op w = on_env w (op w.env)

module _ {S : Type 0} where
  unfoldable pub emit : Metric → Exec (Scrape S) (Unit {0})
  emit m w = (returned tt, record w { metrics = m ∷ w.metrics })

  unfoldable pub set_counted : Bool → Exec (Scrape S) (Unit {0})
  set_counted b w = (returned tt, record w { counted = b })

module _ {S : Type 0} (clk : Clock S) where
  unfoldable pub clock_now : Exec (Scrape S) Time
  clock_now w = let (t, s) = clk.now w.env in (returned t, record w { env = s })

  unfoldable pub ctx_done : Exec (Scrape S) Bool
  ctx_done w = let (b, s) = clk.ctx_done w.env in (returned b, record w { env = s })

  observe : Time → Scrape S → Scrape S
  unfolding ◌-ℤ◌
  observe start w =
      let (t, s) = clk.now w.env in
      record w { env = s; metrics = observe_article_scrape (t -ℤ start) ∷ w.metrics }

  unfoldable pub observe_if_counted : Time → Scrape S → Scrape S
  unfolding observe
  observe_if_counted start w = if w.counted then observe start w else w

module _ {S : Type 0} (s : ScrapeService S) where
  abbrev pub Op : Type 0 → Type 0
  Op A = Exec (Scrape S) A

  abbrev pub Done : Type 0
  Done = Result (Unit {0})

  report : Bool → ScrapeResult → ErrorReason → Done → Op Done
  report emitted result reason werr =
      if emitted
      then (do
        emit (scrape_done result)
        emit (error_observed comp_article_scrape reason)
        pure werr)
      else pure werr

  -- `failEmit`
  unfoldable pub fail_emit : Entry → Text → ScrapeResult → ErrorReason → Bool → Op Done
  unfolding report
  fail_emit e msg result reason emitted =
      let attempts = e.extract_attempts + 1 in
      if leb s.cfg.max_attempts attempts
      then (do
        werr ← call (s.store.update_extract_state e.id failed attempts none msg)
        report emitted result reason werr)
      else do
        now ← clock_now s.clk
        let next = now +ℤ extract_backoff s.cfg attempts s.jitter
        werr ← call (s.store.update_extract_state e.id pending attempts (some next) msg)
        report emitted result reason werr

  -- `fail`
  abbrev pub fail : Entry → Text → ScrapeResult → ErrorReason → Op Done
  fail e msg result reason = fail_emit e msg result reason true

  -- `retryLater`
  unfoldable pub retry_later : Entry → Text → Duration → ErrorReason → Op Done
  unfolding report
  retry_later e msg retry_after reason = do
    now ← clock_now s.clk
    let next = now +ℤ min_ℤ (max_ℤ s.cfg.base_backoff retry_after) s.cfg.max_backoff
    werr ← call (s.store.update_extract_state e.id pending e.extract_attempts (some next) msg)
    report true scrape_retried reason werr

  unfoldable pub stored : Entry → Done → Op Done
  stored e (ok _) = do emit (scrape_done scrape_success); pure (ok tt)
  stored e (err x) = fail e (codes "persist: " ++ x.message) scrape_failed reason_internal

  unfoldable pub sanitized : Entry → Text → Op Done
  unfolding stored
  sanitized e safe =
      if is_empty (s.strings.trim_space safe)
      then fail e (codes "sanitised content empty") scrape_extract_error reason_parse
      else do r ← call (s.store.set_entry_content e.id safe); stored e r

  unfoldable pub extracted : Entry → Text → Result Text → Op Done
  unfolding sanitized
  extracted e page_url (err x) =
      fail e (codes "extract: " ++ x.message) scrape_extract_error reason_parse
  extracted e page_url (ok html) =
      if is_empty (s.strings.trim_space html)
      then fail e (codes "extract: empty content") scrape_extract_error reason_parse
      else do safe ← call (s.san.sanitize html page_url); sanitized e safe

  unfoldable pub fetch_failed : Entry → Error → Bool → Op Done
  fetch_failed e x stopped =
      let msg = codes "fetch: " ++ x.message in
      if ctx_shutdown_canceled stopped x
      then (do set_counted false; fail_emit e msg scrape_fetch_error (classify_fetch_error x) false)
      else fail e msg scrape_fetch_error (classify_fetch_error x)

  unfoldable pub http_failed : Entry → FetchResponse → Op Done
  http_failed e resp =
      let reason = classify_http_status resp.status in
      let msg = codes "status " ++ s.strings.decimal resp.status in
      if is_transient reason
      then retry_later e msg resp.retry_after reason
      else fail e msg scrape_http_error reason

  unfoldable pub answered : Entry → Result FetchResponse → Op Done
  unfolding extracted fetch_failed http_failed
  answered e (err x) = do stopped ← ctx_done s.clk; fetch_failed e x stopped
  answered e (ok resp) =
      if not (resp.status == 200)
      then http_failed e resp
      else if not (is_html s.strings resp.content_type)
      then fail e (codes "content-type " ++ s.strings.quote resp.content_type) scrape_extract_error
          reason_parse
      else do
        let page_url = or_url resp.final_url e.url
        html ← call (s.ext.extract page_url resp.body resp.content_type)
        extracted e page_url html

  -- The body of `ScrapeEntry`, before its `recover`.
  unfoldable pub scrape_body : Entry → Op Done
  unfolding answered
  scrape_body e = do
    r ← call (s.fetcher.fetch (record { url = e.url; etag = []; last_modified = [] }))
    answered e r

  -- The deferred `recover` of `ScrapeEntry`.
  unfoldable pub fail_panic : Entry → Text → Op Done
  fail_panic e r = fail e (codes "panic: " ++ r) scrape_failed reason_internal

  -- `ScrapeEntry`
  unfoldable pub scrape_entry : Entry → Op Done
  unfolding scrape_body fail_panic
  scrape_entry e = do
    start ← clock_now s.clk
    set_counted true
    deferred (recover_with (scrape_body e) (fail_panic e)) (observe_if_counted s.clk start)
