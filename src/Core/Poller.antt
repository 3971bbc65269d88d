-- ===== src/Core/Poller.antt =====
-- internal/core/poller.go, with `RecoverGuard` of recover.go: what a worker does with a feed, and how
-- the due feeds are handed to the workers.
use bfeed.Base.{
  ℕ, zero, suc, ◌≡◌, refl, sym, ap, if◌then◌else◌, Bool, true, false, List, [], ◌∷◌, ◌++◌, take,
  ◌∙◌,
}
use mathlib.Core.Path.{subst}
use mathlib.Core.List.{append-nil, append_assoc}
use bfeed.Base.Int.{ℤ, pos, negsuc, ◌+ℤ◌, leb_ℤ, int_laws}
use bfeed.Base.Exec.{Step, returned, panicked, Exec, pure, ◌>>=◌, ◌>>◌, recover_with, deferred}
use bfeed.Base.Exec.Tally.{score}
use bfeed.Core.Types.{Feed, Duration, Time, Result, ok, err, errors_is, canceled, minute}
use bfeed.Core.Metrics.{
  Metric, add_poll_inflight, poller_ticked, error_observed, comp_db, reason_internal,
}
use bfeed.Core.Ports.{Clock}

pub record PollerConfig : Type 0 where
  pub tick : Duration
  pub batch_size : ℤ
  pub workers : ℤ

-- The normalisation of `NewPoller`.
unfoldable pub normalize_config : PollerConfig → PollerConfig
normalize_config cfg = record {
  tick = if leb_ℤ cfg.tick (pos 0) then pos minute else cfg.tick;
  batch_size = if leb_ℤ cfg.batch_size (pos 0) then pos 100 else cfg.batch_size;
  workers = if leb_ℤ cfg.workers (pos 0) then pos 20 else cfg.workers;
}

-- `sends f` is the select of `dispatch`: whether a worker takes the feed, or the context is done.
pub record Poller (S : Type 0) : Type 0 where
  pub list_due_feeds : Time → ℤ → Exec S (Result (List Feed))
  pub poll_feed : Feed → Exec S (Result (Unit {0}))
  pub sends : Feed → S → Bool × S
  pub clk : Clock S
  pub cfg : PollerConfig

-- The environment, the Poller's own calls of the metrics port, the newest first, and the feeds that
-- workers took, in order.
pub record Run (S : Type 0) : Type 0 where
  pub env : S
  pub metrics : List Metric
  pub taken : List Feed

-- The feeds in flight, by the calls of `AddPollInflight`.
unfoldable pub inflight : List Metric → ℤ
unfolding ◌+ℤ◌
inflight [] = pos 0
inflight (add_poll_inflight d ∷ ms) = d +ℤ inflight ms
inflight (_ ∷ ms) = inflight ms

module _ {S : Type 0} where
  unfoldable pub emit : Metric → Run S → Run S
  emit m w = record w { metrics = m ∷ w.metrics }

  unfoldable pub tell : Metric → Exec (Run S) (Unit {0})
  unfolding emit
  tell m w = (returned tt, emit m w)

  on_env : {A : Type 0} → Run S → Step A × S → Step A × Run S
  on_env w (r, e) = (r, record w { env = e })

  unfoldable pub call : {A : Type 0} → Exec S A → Exec (Run S) A
  unfolding on_env
  call op w = on_env w (op w.env)

-- `RecoverGuard`
unfoldable pub recover_guard : {W : Type 0} → Exec W (Unit {0}) → Exec W (Unit {0})
recover_guard m = recover_with m (λ r. pure tt)

module _ {S : Type 0} (p : Poller S) where
  -- `pollOne`; a failed poll is only logged.
  unfoldable pub poll_one : Feed → Exec (Run S) (Unit {0})
  unfolding recover_guard
  poll_one f = recover_guard (
      tell (add_poll_inflight (pos 1)) >>= λ _.
      deferred (call (p.poll_feed f) >>= λ r. pure tt) (emit (add_poll_inflight (negsuc 0))))

  on_send : Feed → Exec (Run S) (Unit {0}) → Run S → Bool × S → Step (Unit {0}) × Run S
  on_send f rest w (true, e) = rest (record w { env = e; taken = w.taken ++ (f ∷ []) })
  on_send f rest w (false, e) = (returned tt, record w { env = e })

  -- The loop of `dispatch`.
  unfoldable pub send_all : List Feed → Exec (Run S) (Unit {0})
  unfolding on_send
  send_all [] w = (returned tt, w)
  send_all (f ∷ fs) w = on_send f (send_all fs) w (p.sends f w.env)

  unfoldable pub listed : Result (List Feed) → Exec (Run S) (Unit {0})
  listed (ok due) = send_all due
  listed (err e) =
      if errors_is e canceled then pure tt else tell (error_observed comp_db reason_internal)

  unfoldable pub clock_now : Exec (Run S) Time
  clock_now w = let (t, e) = p.clk.now w.env in (returned t, record w { env = e })

  -- `dispatch`
  unfoldable pub dispatch : Exec (Run S) (Unit {0})
  unfolding listed
  dispatch = do
    now ← clock_now
    tell (poller_ticked now)
    r ← call (p.list_due_feeds now p.cfg.batch_size)
    listed r

  balance : (a : ℤ) → negsuc 0 +ℤ (pos 1 +ℤ a) ≡ a
  balance a = omega int_laws

  after_poll :
      (f : Feed) (w : Run S) (r : Step (Result (Unit {0})) × S)
      → p.poll_feed f w.env ≡ r
      → (score (poll_one f w).0 ≡ 1) × (inflight (poll_one f w).1.metrics ≡ inflight w.metrics)
  unfolding poll_one recover_guard recover_with tell call deferred ◌>>=◌ on_env emit inflight ◌+ℤ◌
  after_poll f w (returned a, e) h = rw h (refl, balance (inflight w.metrics))
  after_poll f w (panicked x, e) h = rw h (refl, balance (inflight w.metrics))

  -- Whatever a poll does, panics included, the worker goes on, and the feed is no longer counted as
  -- in flight.
  pub poll_one_lem :
      (f : Feed) (w : Run S)
      → (score (poll_one f w).0 ≡ 1) × (inflight (poll_one f w).1.metrics ≡ inflight w.metrics)
  poll_one_lem f w = after_poll f w (p.poll_feed f w.env) refl

  -- From the environment `e` on, `k` of the feeds are sent: the select takes each of them in turn, and
  -- then it has none left or gives up on the next one.
  abbrev pub Sends : ℕ → List Feed → S → Type 0
  Sends zero [] e = Unit
  Sends zero (f ∷ fs) e = (p.sends f e).0 ≡ false
  Sends (suc k) [] e = ⊥
  Sends (suc k) (f ∷ fs) e = ((p.sends f e).0 ≡ true) × Sends k fs (p.sends f e).1

  abbrev Takes : List Feed → Run S → Run S → Type 0
  Takes fs w w' = (k : ℕ) × (Sends k fs w.env × (w'.taken ≡ w.taken ++ take k fs))

  on_send-Takes :
      (f : Feed) (fs : List Feed) (w : Run S) (r : Bool × S)
      → p.sends f w.env ≡ r
      → ((v : Run S) → Takes fs v (send_all fs v).1)
      → Takes (f ∷ fs) w (on_send f (send_all fs) w r).1
  unfolding on_send
  on_send-Takes f fs w (false, e) h ih = (0, (ap (λ r. r.0) h, sym (append-nil w.taken)))
  on_send-Takes f fs w (true, e) h ih =
      let (k, (s, t)) = ih (record w { env = e; taken = w.taken ++ (f ∷ []) }) in
      (
        suc k,
        (
          (ap (λ r. r.0) h, subst (Sends k fs) (sym (ap (λ r. r.1) h)) s),
          t ∙ append_assoc w.taken (f ∷ []) (take k fs),
        ),
      )

  send_all-Takes : (fs : List Feed) (w : Run S) → Takes fs w (send_all fs w).1
  unfolding send_all
  send_all-Takes [] w = (0, (tt, sym (append-nil w.taken)))
  send_all-Takes (f ∷ fs) w = on_send-Takes f fs w (p.sends f w.env) refl (send_all-Takes fs)

  -- If the store lists feeds, then workers take the first ones of them, in their order and each once: all
  -- that the select sends before it gives up on one because the context is done, from the environment that
  -- the listing leaves on, and so all of them if it never does.
  pub dispatch-take :
      (due : List Feed) (w : Run S) (e : S)
      → p.list_due_feeds (p.clk.now w.env).0 p.cfg.batch_size (p.clk.now w.env).1
        ≡ (returned (ok due), e)
      → (k : ℕ) × (Sends k due e × ((dispatch w).1.taken ≡ w.taken ++ take k due))
  unfolding dispatch clock_now ◌>>=◌ tell call listed on_env emit
  dispatch-take due w e h = rw h (send_all-Takes due _)
