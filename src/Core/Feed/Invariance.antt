-- ===== src/Core/Feed/Invariance.antt =====
-- An attempt and an invariant of the environment that every port keeps.
pub mod Poll
use bfeed.Base.{ℕ, if◌then◌else◌, Bool, true, false, Option, none, some, List, [], ◌∷◌}
use bfeed.Base.Text.{Text}
use bfeed.Base.Exec.{Step, Exec, pure, ◌>>=◌}
use bfeed.Base.Exec.Ensures.{Keeps, Keeps-pure, Keeps-if, Keeps-bind, keeps_rules}
use bfeed.Core.Types.{RowId, Time, Duration, Feed, Entry, Result, ok, err}
use bfeed.Core.Metrics.{Metric, PollResult, ErrorReason}
use bfeed.Core.Ports.{Clock, Ctx, FetchRequest, FetchResponse, ParsedFeed, ParsedEntry, Dedup}
use bfeed.Core.Feed.World.{
  FeedService, World, call, get_snapshot, change, emit, set_counted, clock_now, ctx_done, observe,
  observe_if_counted,
}
use bfeed.Core.Feed.Record
use bfeed.Core.Feed.Record.{is_known}

-- Every port that an attempt calls keeps the invariant.
pub record PortsKeep {S F U : Type 0} (I : S → Type 0) (s : FeedService S F U) : Type 0 where
  pub now : (x : S) → I x → I (s.clk.now x).1
  pub done : (x : S) → I x → I (s.clk.ctx_done x).1
  pub fetch : (q : FetchRequest) → Keeps I (s.fetcher.fetch q)
  pub parse : (b t u : Text) → Keeps I (s.parser.parse b t u)
  pub discover : (b u : Text) → Keeps I (s.parser.discover b u)
  pub sanitize : (h u : Text) → Keeps I (s.san.sanitize h u)
  pub update_feed : (c : Ctx) (f : Feed) → Keeps I (s.store.update_feed c f)
  pub delete_feed : (user id : RowId) → Keeps I (s.store.delete_feed user id)
  pub set_feed_url :
      (user id : RowId) (u : Text) (t : Time) → Keeps I (s.store.set_feed_url user id u t)
  pub weekly_entry_count : (id : RowId) (t : Time) → Keeps I (s.store.weekly_entry_count id t)
  pub upsert_entries : (id : RowId) (es : List Entry) → Keeps I (s.store.upsert_entries id es)
  pub entry_dedup : (id : RowId) (gs : List Text) → Keeps I (s.store.entry_dedup id gs)

-- The invariant as one of the world.
pub record OnEnv {S : Type 0} (I : S → Type 0) (w : World S) : Type 0 where
  pub holds : I w.env

module _ {S : Type 0} {I : S → Type 0} where
  pub call-Keeps : {A : Type 0} (op : Exec S A) → Keeps I op → Keeps (OnEnv I) (call op)
  unfolding call
  call-Keeps op k = record { at = λ w h. record { holds = k.at w.env h.holds } }

  pub get_snapshot-Keeps : Keeps {W = World S} (OnEnv I) get_snapshot
  unfolding get_snapshot
  get_snapshot-Keeps = record { at = λ w h. record { holds = h.holds } }

  pub change-Keeps : (f : Feed → Feed) → Keeps {W = World S} (OnEnv I) (change f)
  unfolding change
  change-Keeps f = record { at = λ w h. record { holds = h.holds } }

  pub emit-Keeps : (m : Metric) → Keeps {W = World S} (OnEnv I) (emit m)
  unfolding emit
  emit-Keeps m = record { at = λ w h. record { holds = h.holds } }

  pub set_counted-Keeps : (b : Bool) → Keeps {W = World S} (OnEnv I) (set_counted b)
  unfolding set_counted
  set_counted-Keeps b = record { at = λ w h. record { holds = h.holds } }

pub ruleset world_rules =
    (keeps_rules, call-Keeps, get_snapshot-Keeps, change-Keeps, emit-Keeps, set_counted-Keeps)

module _ {S F U : Type 0} {I : S → Type 0} (s : FeedService S F U) (p : PortsKeep I s) where
  pub clock_now-Keeps : Keeps (OnEnv I) (clock_now s.clk)
  unfolding clock_now
  clock_now-Keeps = record { at = λ w h. record { holds = p.now w.env h.holds } }

  pub ctx_done-Keeps : Keeps (OnEnv I) (ctx_done s.clk)
  unfolding ctx_done
  ctx_done-Keeps = record { at = λ w h. record { holds = p.done w.env h.holds } }

  pub observe-OnEnv : (t : Time) (w : World S) → OnEnv I w → OnEnv I (observe s.clk t w)
  unfolding observe
  observe-OnEnv t w h = record { holds = p.now w.env h.holds }

  pub observe_if_counted-OnEnv :
      (t : Time) (w : World S) → OnEnv I w → OnEnv I (observe_if_counted s.clk t w)
  unfolding observe_if_counted
  observe_if_counted-OnEnv t w h = seen w.counted
    where
      seen : (b : Bool) → OnEnv I (if b then observe s.clk t w else w)
      seen true = observe-OnEnv t w h
      seen false = h

  pub record_error_emit-Keeps :
      (now : Time) (msg : Text) (ra : Duration) (r : PollResult) (x : ErrorReason) (b : Bool)
      → Keeps (OnEnv I) (Record.record_error_emit s now msg ra r x b)
  unfolding Record.record_error_emit
  record_error_emit-Keeps now msg ra r x b =
      search (world_rules, ctx_done-Keeps, p.update_feed) depth 12

  pub record_panic-Keeps : (r : Text) → Keeps (OnEnv I) (Record.record_panic s r)
  unfolding Record.record_panic
  record_panic-Keeps r = search (world_rules, clock_now-Keeps, record_error_emit-Keeps) depth 12

  new_entries-Keeps :
      (f : Feed) (now : Time) (base : Text) (d : Dedup) (pes : List ParsedEntry)
      → Keeps (OnEnv I) (Record.new_entries s f now base d pes)
  unfolding Record.new_entries
  new_entries-Keeps f now base d [] = search world_rules
  new_entries-Keeps f now base d (pe ∷ pes) =
      let rest = new_entries-Keeps f now base d pes in
      Keeps-if (is_known d pe) _ _ rest (
        Keeps-bind _ _ (call-Keeps _ (p.sanitize pe.content base)) λ c.
          Keeps-bind _ _ (call-Keeps _ (p.sanitize pe.summary base))
            λ t. Keeps-bind _ _ rest λ es. Keeps-pure _)

  after_dedup-Keeps :
      (f : Feed) (now : Time) (base : Text) (pf : ParsedFeed) (d : Result Dedup)
      → Keeps (OnEnv I) (Record.after_dedup s f now base pf d)
  unfolding Record.after_dedup
  after_dedup-Keeps f now base pf (err e) = search world_rules
  after_dedup-Keeps f now base pf (ok d) =
      search (world_rules, new_entries-Keeps, p.upsert_entries) depth 12

  ingest-Keeps : (pf : ParsedFeed) (base : Text) → Keeps (OnEnv I) (Record.ingest s pf base)
  unfolding Record.ingest
  ingest-Keeps pf base =
      search (world_rules, clock_now-Keeps, p.entry_dedup, after_dedup-Keeps) depth 12

  next_check-Keeps : (now : Time) → Keeps (OnEnv I) (Record.next_check s now)
  unfolding Record.next_check
  next_check-Keeps now = search (world_rules, p.weekly_entry_count) depth 12

  after_persist-Keeps :
      (r : PollResult) (u : Result (Unit {0})) → Keeps (OnEnv I) (Record.after_persist s r u)
  unfolding Record.after_persist
  after_persist-Keeps r (ok _) = search world_rules depth 12
  after_persist-Keeps r (err e) = search world_rules depth 12

  persist-Keeps :
      (now : Time) (resp : FetchResponse) (r : PollResult)
      → Keeps (OnEnv I) (Record.persist s now resp r)
  unfolding Record.persist
  persist-Keeps now resp r =
      search (world_rules, next_check-Keeps, p.update_feed, after_persist-Keeps) depth 16

  after_ingest-Keeps :
      (now : Time) (resp : FetchResponse) (pf : ParsedFeed) (r : Result (Unit {0}))
      → Keeps (OnEnv I) (Record.after_ingest s now resp pf r)
  unfolding Record.after_ingest
  after_ingest-Keeps now resp pf (err e) = record_error_emit-Keeps now _ _ _ _ true
  after_ingest-Keeps now resp pf (ok _) = search (world_rules, persist-Keeps) depth 12

  pub record_success-Keeps :
      (now : Time) (resp : FetchResponse) (pf : Option ParsedFeed)
      → Keeps (OnEnv I) (Record.record_success s now resp pf)
  unfolding Record.record_success
  record_success-Keeps now resp none = persist-Keeps now resp _
  record_success-Keeps now resp (some pf) =
      search (world_rules, ingest-Keeps, after_ingest-Keeps) depth 12
