-- ===== src/Core/Feed/Scheduling/Record.antt =====
-- When the ends of an attempt schedule the next check.
use bfeed.Base.{ℕ, ◌+◌, ◌≡◌, refl, Bool, true, false, Option, none, some, arith, if◌then◌else◌}
use bfeed.Base.Int.{pos, ltb_ℤ, ◌-ℤ◌, ◌+ℤ◌, ◌<ℤ◌, +ℤ_parts}
use bfeed.Base.Text.{Text}
use bfeed.Base.Exec.{Step, returned, panicked, Exec, pure, continue, ◌>>=◌}
use bfeed.Base.Exec.Ensures.{
  Keeps, Ensures, Gives, WhenReturned, keeps_rules, Ensures-then, Ensures-bind, Ensures-seq,
  Ensures-bind-value, Ensures-any,
}
use bfeed.Core.Types.{Time, Duration, Feed, Result, ok, err}
use bfeed.Core.Metrics.{Metric, PollResult, ErrorReason}
use bfeed.Core.Schedule.{week}
use bfeed.Core.Schedule.Bounds.{adaptive_interval_positive, add_jitter_bounds}
use bfeed.Core.Reschedule.{poll_reschedule}
use bfeed.Core.Reschedule.Backoff.{reschedule_delay_bounds}
use bfeed.Core.Ports.{Clock, FetchResponse, ParsedFeed}
use bfeed.Core.Feed.World.{
  FeedService, World, on_env, call, get_snapshot, change, emit, clock_now, ctx_done,
}
use bfeed.Core.Feed.Config.{IsSoundConfig}
use bfeed.Core.Feed.Record.{
  record_error_emit, record_panic, record_success, mark_error, mark_success, min_check,
  adaptive_check, next_check, after_persist, persist, after_ingest,
}

-- The feed was checked at some time, and its next check is later.
abbrev pub IsScheduled : Feed → Type 0
IsScheduled f = (t : Time) × (f.checked_at ≡ some t) × (t <ℤ f.next_check_at)

-- A condition on the snapshot alone.
pub record OnFeed {S : Type 0} (P : Feed → Type 0) (w : World S) : Type 0 where
  pub holds : P w.feed

module _ {S : Type 0} {P : Feed → Type 0} where
  pub call-Keeps : {A : Type 0} (op : Exec S A) → Keeps (OnFeed P) (call op)
  unfolding call
  call-Keeps op = record { at = λ w h. record { holds = h.holds } }

  pub get_snapshot-Keeps : Keeps {W = World S} (OnFeed P) get_snapshot
  unfolding get_snapshot
  get_snapshot-Keeps = record { at = λ w h. record { holds = h.holds } }

  pub emit-Keeps : (m : Metric) → Keeps {W = World S} (OnFeed P) (emit m)
  unfolding emit
  emit-Keeps m = record { at = λ w h. record { holds = h.holds } }

  pub clock_now-Keeps : (clk : Clock S) → Keeps (OnFeed P) (clock_now clk)
  unfolding clock_now
  clock_now-Keeps clk = record { at = λ w h. record { holds = h.holds } }

  pub ctx_done-Keeps : (clk : Clock S) → Keeps (OnFeed P) (ctx_done clk)
  unfolding ctx_done
  ctx_done-Keeps clk = record { at = λ w h. record { holds = h.holds } }

  pub change-Keeps :
      (f : Feed → Feed) → ((g : Feed) → P g → P (f g)) → Keeps {W = World S} (OnFeed P) (change f)
  unfolding change
  change-Keeps f k = record { at = λ w h. record { holds = k w.feed h.holds } }

  pub change-Ensures :
      {Q : Feed → Type 0} (f : Feed → Feed)
      → ((g : Feed) → Q g → P (f g))
      → Ensures {W = World S} (OnFeed Q) (OnFeed P) (change f)
  unfolding change
  change-Ensures f k = record { at = λ w h. record { holds = k w.feed h.holds } }

module _ {S : Type 0} where
  pub established :
      {P : Feed → Type 0} (f : Feed → Feed)
      → ((g : Feed) → P (f g))
      → Ensures {W = World S} (λ _. Unit {0}) (OnFeed P) (change f)
  unfolding change
  established f k = record { at = λ w h. record { holds = k w.feed } }

-- Nothing is asked, and nothing is promised.
pub anything : {W A : Type 0} (m : Exec W A) → Keeps (λ _. Unit {0}) m
anything m = record { at = λ w h. tt }

pub anyhow : {W A : Type 0} (m : Exec W A) → Ensures (λ _. Unit {0}) (λ _. Unit {0}) m
anyhow {W} {A} m = record { at = λ w h. whatever (m w) }
  where
    whatever : (r : Step A × W) → WhenReturned (λ _. Unit {0}) r
    whatever (returned a, w) = tt
    whatever (panicked x, w) = tt

pub ruleset feed_rules =
    (keeps_rules, call-Keeps, get_snapshot-Keeps, emit-Keeps, clock_now-Keeps, ctx_done-Keeps)

later_by : (t d : Time) → pos 0 <ℤ d → t <ℤ t +ℤ d
later_by t d h = omega (arith, +ℤ_parts t d)

module _ {S F U : Type 0} (s : FeedService S F U) (sound : IsSoundConfig s.cfg) where
  mark_error-IsScheduled :
      (now : Time) (msg : Text) (retry : Duration) (f : Feed)
      → IsScheduled (mark_error s now msg retry f)
  unfolding mark_error poll_reschedule
  mark_error-IsScheduled now msg retry f = (
    now,
    refl,
    later_by now _
        (reschedule_delay_bounds s.cfg.reschedule (f.error_count + 1) retry s.cfg.jitter
          (omega arith) sound.backoff_positive sound.backoff_fits sound.fair).0,
  )

  pub record_error-Ensures :
      (now : Time) (msg : Text) (retry : Duration) (result : PollResult) (reason : ErrorReason)
      (emitted : Bool)
      → Ensures
          (λ _. Unit {0})
          (OnFeed IsScheduled)
          (record_error_emit s now msg retry result reason emitted)
  unfolding record_error_emit
  record_error-Ensures now msg retry result reason emitted =
      Ensures-then _ _ (established _ (λ g. mark_error-IsScheduled now msg retry g))
        (λ _. search feed_rules depth 12)

  pub record_panic-Ensures :
      (r : Text) → Ensures (λ _. Unit {0}) (OnFeed IsScheduled) (record_panic s r)
  unfolding record_panic
  record_panic-Ensures r = Ensures-bind _ _ (anything _) λ now. record_error-Ensures now _ _ _ _ _

  min_check-later : (now : Time) → now <ℤ min_check s now
  unfolding min_check
  min_check-later now =
      let p = sound.schedule.min_positive in
      let b =
        add_jitter_bounds s.cfg.jitter s.cfg.schedule.min_interval sound.fair (omega arith)
          sound.schedule.min_fits in
      later_by now _ (omega arith)

  adaptive_check-later : (now : Time) (f : Feed) (r : Result ℕ) → now <ℤ adaptive_check s now f r
  unfolding adaptive_check
  adaptive_check-later now f (err e) = min_check-later now
  adaptive_check-later now f (ok n) = later_by now _ (
      adaptive_interval_positive s.floats n s.cfg.schedule f.ttl s.cfg.jitter sound.schedule
        sound.fair)

  waited-later :
      (now : Time) (f : Feed) (w : World S) (r : Step (Result ℕ) × S)
      → Gives
          (λ t. now <ℤ t)
          (continue (on_env w r) (λ wc. pure {W = World S} (adaptive_check s now f wc))).0
  waited-later now f w (returned wc, e) = adaptive_check-later now f wc
  waited-later now f w (panicked x, e) = tt

  chosen-later :
      (now : Time) (b : Bool) (m : Exec (World S) Time) (w : World S)
      → Gives (λ t. now <ℤ t) (m w).0
      → Gives (λ t. now <ℤ t) ((if b then pure (min_check s now) else m) w).0
  chosen-later now true m w h = min_check-later now
  chosen-later now false m w h = h

  next_check-later : (now : Time) (w : World S) → Gives (λ t. now <ℤ t) (next_check s now w).0
  unfolding next_check call ◌>>=◌ get_snapshot
  next_check-later now w =
      chosen-later now (ltb_ℤ (now -ℤ w.feed.created_at) (pos week))
        (call (s.store.weekly_entry_count w.feed.id now) >>= λ wc.
          pure (adaptive_check s now w.feed wc))
        w (waited-later now w.feed w (s.store.weekly_entry_count w.feed.id now w.env))

  next_check-Keeps : {P : Feed → Type 0} (now : Time) → Keeps (OnFeed P) (next_check s now)
  unfolding next_check
  next_check-Keeps now = search feed_rules depth 12

  after_persist-Keeps :
      {P : Feed → Type 0} (result : PollResult) (r : Result (Unit {0}))
      → Keeps (OnFeed P) (after_persist s result r)
  unfolding after_persist
  after_persist-Keeps result (ok _) = search feed_rules
  after_persist-Keeps result (err e) = search feed_rules

  persist-Ensures :
      (now : Time) (resp : FetchResponse) (result : PollResult)
      → Ensures (λ _. Unit {0}) (OnFeed IsScheduled) (persist s now resp result)
  unfolding persist mark_success
  persist-Ensures now resp result =
      Ensures-seq {mid = OnFeed (λ f. f.checked_at ≡ some now)} _ _ (established _ (λ g. refl)) λ _.
        Ensures-bind-value (λ t. now <ℤ t) _ _ (next_check-Keeps now) (next_check-later now)
          λ t later.
            Ensures-then _ _ (change-Ensures _ (λ g h. (now, h, later)))
              (λ _. search (feed_rules, after_persist-Keeps) depth 12)

  after_ingest-Ensures :
      (now : Time) (resp : FetchResponse) (pf : ParsedFeed) (r : Result (Unit {0}))
      → Ensures (λ _. Unit {0}) (OnFeed IsScheduled) (after_ingest s now resp pf r)
  unfolding after_ingest
  after_ingest-Ensures now resp pf (ok _) =
      Ensures-seq {mid = λ _. Unit {0}} _ _ (anyhow _) λ _. persist-Ensures now resp _
  after_ingest-Ensures now resp pf (err e) = record_error-Ensures now _ _ _ _ _

  pub record_success-Ensures :
      (now : Time) (resp : FetchResponse) (pf : Option ParsedFeed)
      → Ensures (λ _. Unit {0}) (OnFeed IsScheduled) (record_success s now resp pf)
  unfolding record_success
  record_success-Ensures now resp none = persist-Ensures now resp _
  record_success-Ensures now resp (some pf) =
      Ensures-bind _ _ (anything _)
        λ f. Ensures-bind _ _ (anything _) λ r. after_ingest-Ensures now resp pf r
