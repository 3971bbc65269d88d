-- ===== src/Core/Feed/Record.antt =====
-- The ends of an attempt: `recordError`, `recordPanic`, `recordSuccess`, and `ingest`, which stores
-- the entries of a parsed feed.
use bfeed.Base.{
  ℕ, ◌+◌, if◌then◌else◌, Bool, true, false, Option, none, some, List, [], ◌∷◌, ◌++◌, map,
}
use bfeed.Base.Int.{pos, ltb_ℤ, ◌+ℤ◌, ◌-ℤ◌}
use bfeed.Base.Text.{Text, text_eq, is_empty, codes}
use bfeed.Base.Exec.{Exec, pure, ◌>>=◌, ◌>>◌}
use bfeed.Core.Types.{Duration, Time, Result, ok, err, Feed, Entry, unread, idle, is_zero_time}
use bfeed.Core.Metrics.{
  PollResult, ErrorReason, feed_poll_done, error_observed, comp_feed_poll, poll_success,
  poll_not_modified, poll_store_error, poll_panic, reason_internal,
}
use bfeed.Core.Schedule.{week, add_jitter, adaptive_interval}
use bfeed.Core.Reschedule.{poll_reschedule}
use bfeed.Core.Ports.{FetchResponse, ParsedFeed, ParsedEntry, Dedup, caller, detached}
use bfeed.Core.Urls.{or_url, or_keep, feed_title, http_url}
use bfeed.Core.Feed.World.{
  FeedService, World, call, get_snapshot, change, emit, clock_now, ctx_done,
}

-- Whether `ingest` skips a parsed entry: deleted before, or stored with the same hash.
unfoldable pub is_known : Dedup → ParsedEntry → Bool
is_known d pe =
    if d.tombstoned pe.guid
    then true
    else elim (d.existing pe.guid) [ none ↦ false | some h ↦ text_eq h pe.hash ]

module _ {S F U : Type 0} (s : FeedService S F U) where
  abbrev pub Op : Type 0 → Type 0
  Op A = Exec (World S) A

  emit_error : PollResult → ErrorReason → Op (Unit {0})
  emit_error result reason = do
    emit (feed_poll_done result)
    emit (error_observed comp_feed_poll reason)

  -- The fields that a failed attempt writes.
  unfoldable pub mark_error : Time → Text → Duration → Feed → Feed
  mark_error now msg retry_after f =
      let n = f.error_count + 1 in
      record f {
        error_count = n;
        last_error = msg;
        checked_at = some now;
        updated_at = now;
        next_check_at = poll_reschedule now s.cfg.reschedule n retry_after s.cfg.jitter;
      }

  -- `recordErrorEmit`
  unfoldable pub record_error_emit :
      Time → Text → Duration → PollResult → ErrorReason → Bool → Op (Result (Unit {0}))
  unfolding emit_error
  record_error_emit now msg retry_after result reason emitted = do
    change (mark_error now msg retry_after)
    cancelled ← ctx_done s.clk
    f ← get_snapshot
    werr ← call (s.store.update_feed (if cancelled then detached else caller) f)
    if emitted then emit_error result reason else pure tt
    pure werr

  -- `recordError`
  abbrev pub record_error :
      Time → Text → Duration → PollResult → ErrorReason → Op (Result (Unit {0}))
  record_error now msg retry_after result reason =
      record_error_emit now msg retry_after result reason true

  -- `recordPanic`
  unfoldable pub record_panic : Text → Op (Result (Unit {0}))
  record_panic r = do
    now ← clock_now s.clk
    record_error now (codes "panic: " ++ r) (pos 0) poll_panic reason_internal

  unfoldable pub new_entry : Feed → Time → ParsedEntry → Text → Text → Entry
  new_entry f now pe content summary = record {
    id = pos 0;
    user_id = f.user_id;
    feed_id = f.id;
    guid = pe.guid;
    url = pe.url;
    title = pe.title;
    author = pe.author;
    content = content;
    summary = summary;
    published_at = if is_zero_time pe.published_at then now else pe.published_at;
    status = unread;
    starred = false;
    read_at = none;
    created_at = now;
    hash = pe.hash;
    comments_url = http_url s.urls pe.comments_url;
    extract_state = idle;
    extract_attempts = 0;
    extract_error = [];
  }

  -- The loop of `ingest`: only entries that are not known are sanitised.
  unfoldable pub new_entries : Feed → Time → Text → Dedup → List ParsedEntry → Op (List Entry)
  unfolding new_entry
  new_entries f now base d [] = pure []
  new_entries f now base d (pe ∷ pes) =
      let rest = new_entries f now base d pes in
      if is_known d pe then rest else do
        content ← call (s.san.sanitize pe.content base)
        summary ← call (s.san.sanitize pe.summary base)
        es ← rest
        pure (new_entry f now pe content summary ∷ es)

  upsert : Feed → List Entry → Op (Result (Unit {0}))
  upsert f es = do
    r ← call (s.store.upsert_entries f.id es)
    pure (elim r [ ok inserted ↦ ok tt | err e ↦ err e ])

  unfoldable pub after_dedup :
      Feed → Time → Text → ParsedFeed → Result Dedup → Op (Result (Unit {0}))
  unfolding upsert
  after_dedup f now base pf (err e) = pure (err e)
  after_dedup f now base pf (ok d) = do es ← new_entries f now base d pf.entries; upsert f es

  -- `ingest`
  unfoldable pub ingest : ParsedFeed → Text → Op (Result (Unit {0}))
  unfolding after_dedup
  ingest pf base = do
    f ← get_snapshot
    now ← clock_now s.clk
    d ← call (s.store.entry_dedup f.id (map (λ pe. pe.guid) pf.entries))
    after_dedup f now base pf d

  -- `minCheck`
  unfoldable pub min_check : Time → Time
  min_check now = now +ℤ add_jitter s.cfg.jitter s.cfg.schedule.min_interval

  unfoldable pub adaptive_check : Time → Feed → Result ℕ → Time
  adaptive_check now f (err e) = min_check now
  adaptive_check now f (ok n) =
      now +ℤ adaptive_interval s.floats n s.cfg.schedule f.ttl s.cfg.jitter

  -- `nextCheck`
  unfoldable pub next_check : Time → Op Time
  unfolding ◌-ℤ◌
  next_check now = do
    f ← get_snapshot
    if ltb_ℤ (now -ℤ f.created_at) (pos week)
        then pure (min_check now)
        else do wc ← call (s.store.weekly_entry_count f.id now); pure (adaptive_check now f wc)

  -- The fields that a parsed feed refreshes.
  unfoldable pub refresh : ParsedFeed → Feed → Feed
  refresh pf f = record f {
    title = or_keep s.strings pf.title f.title;
    site_url = or_keep s.strings pf.site_url f.site_url;
    description = or_keep s.strings pf.description f.description;
    ttl = pf.ttl;
  }

  -- The fields that every successful attempt writes.
  unfoldable pub mark_success : Time → FetchResponse → Feed → Feed
  mark_success now resp f = record f {
    title = feed_title s.strings f.title f.feed_url;
    etag = if is_empty resp.etag then f.etag else resp.etag;
    last_modified = if is_empty resp.last_modified then f.last_modified else resp.last_modified;
    error_count = 0;
    last_error = [];
    checked_at = some now;
    updated_at = now;
  }

  unfoldable pub after_persist : PollResult → Result (Unit {0}) → Op (Result (Unit {0}))
  after_persist result (ok _) = do emit (feed_poll_done result); pure (ok tt)
  after_persist result (err e) = do
    emit (feed_poll_done poll_store_error)
    emit (error_observed comp_feed_poll reason_internal)
    pure (err e)

  unfoldable pub persist : Time → FetchResponse → PollResult → Op (Result (Unit {0}))
  unfolding after_persist
  persist now resp result = do
    change (mark_success now resp)
    t ← next_check now
    change (λ f. record f { next_check_at = t })
    f ← get_snapshot
    r ← call (s.store.update_feed caller f)
    after_persist result r

  unfoldable pub after_ingest :
      Time → FetchResponse → ParsedFeed → Result (Unit {0}) → Op (Result (Unit {0}))
  unfolding persist
  after_ingest now resp pf (err e) =
      record_error now (codes "ingest: " ++ e.message) (pos 0) poll_store_error reason_internal
  after_ingest now resp pf (ok _) = do change (refresh pf); persist now resp poll_success

  -- `recordSuccess`; a nil feed is `none`.
  unfoldable pub record_success : Time → FetchResponse → Option ParsedFeed → Op (Result (Unit {0}))
  unfolding persist after_ingest
  record_success now resp none = persist now resp poll_not_modified
  record_success now resp (some pf) = do
    f ← get_snapshot
    r ← ingest pf (or_url resp.final_url f.feed_url)
    after_ingest now resp pf r
