-- ===== src/Store/Service/Polls.antt =====
-- Polls of the feed service on the store.
use bfeed.Base.{ℕ, zero, suc, refl, take, List, [], ◌∷◌}
use bfeed.Base.Exec.{Exec}
use bfeed.Base.Exec.Ensures.{Keeps}
use bfeed.Base.Int.{pos}
use bfeed.Base.Text.{Text}
use bfeed.Core.Types.{RowId}
use bfeed.Core.Ports.{Dedup}
use bfeed.Core.Feed.World.{World}
use bfeed.Core.Feed.Poll.{poll_feed}
use bfeed.Core.Feed.Pairing.Poll.{UpdateReturns}
use bfeed.Core.Feed.Invariance.{PortsKeep}
use bfeed.Core.Feed.Invariance.Poll.{poll_feed-Keeps}
use bfeed.Store.Rows.{Db, to_unix}
use bfeed.Store.Sql.{Conn, Sql, SqlResult, done, failed, run, query}
use bfeed.Store.Sql.Triple.{After, Found, Triple-give, Triple-query, Triple-bind}
use bfeed.Store.Sound.{IsSound}
use bfeed.Store.Upsert.{Sqlite}
use bfeed.Store.Upsert.Sound.{upsert_entries-Triple}
use bfeed.Store.Dedup.{
  entry_dedup, dedup_chunks, dedup_batch, chunk, select_hashes, select_tombstones,
}
use bfeed.Store.Feeds
use bfeed.Store.Queries.Entries.{weekly_entry_count}
use bfeed.Store.Writes.{Write, perform}
use bfeed.Store.Writes.Sound.{KeepsSound, perform-KeepsSound}
use bfeed.Store.Service.{Machine, Others, on_conn, on_rest, service}

-- The tables of the machine are sound.
pub record IsSoundMachine {X : Type 0} (m : Machine X) : Type 0 where
  pub sound : IsSound m.conn.db

module _ {X A : Type 0} where
  on_conn-Keeps : (op : Sql A) → KeepsSound op → Keeps {W = Machine X} IsSoundMachine (on_conn op)
  unfolding on_conn run
  on_conn-Keeps op k = record {
    at = λ m h. record { sound = ended (op m.conn) (k.at m.conn h.sound) };
  }
    where
      ended : (r : SqlResult A × Conn) → After (λ _. IsSound) IsSound r → IsSound r.1.db
      ended (done a, c) h = h
      ended (failed e, c) h = h

  on_rest-Keeps : (op : Exec X A) → Keeps {W = Machine X} IsSoundMachine (on_rest op)
  unfolding on_rest
  on_rest-Keeps op = record { at = λ m h. record { sound = h.sound } }

module _ {A : Type 0} where
  query-KeepsSound : (f : Db → SqlResult A) → KeepsSound (query f)
  query-KeepsSound f = Triple-query f (λ db s. s) (λ db s. found db s (f db))
    where
      found : (db : Db) → IsSound db → (r : SqlResult A) → Found (λ _. IsSound db) r
      found db s (done a) = s
      found db s (failed e) = tt

dedup_chunks-KeepsSound :
    (k : ℕ) (feed : RowId) (guids : List Text) (d : Dedup)
    → KeepsSound (dedup_chunks k feed guids d)
unfolding dedup_chunks dedup_batch
dedup_chunks-KeepsSound zero feed guids d = Triple-give d (λ db s. s)
dedup_chunks-KeepsSound (suc k) feed [] d = Triple-give d (λ db s. s)
dedup_chunks-KeepsSound (suc k) feed (g ∷ gs) d =
    Triple-bind _ _
      (Triple-bind _ _ (query-KeepsSound (λ db. done (select_hashes feed (take chunk (g ∷ gs)) db)))
        λ hs.
          Triple-bind _ _
            (query-KeepsSound (λ db. done (select_tombstones feed (take chunk (g ∷ gs)) db)))
            λ ts. Triple-give _ (λ db s. s))
      λ e. dedup_chunks-KeepsSound k feed _ e

module _ {X F U : Type 0} (lib : Sqlite) (o : Others X F U) where
  performed : (op : Write) → KeepsSound (perform lib (λ _. pos 0) op)
  performed = perform-KeepsSound lib (λ _. pos 0)

  service-PortsKeep : PortsKeep IsSoundMachine (service lib o)
  unfolding service entry_dedup perform Feeds.weekly_entry_count
  service-PortsKeep = record {
    now = λ m h. record { sound = h.sound };
    done = λ m h. record { sound = h.sound };
    fetch = λ q. on_rest-Keeps _;
    parse = λ b t u. on_rest-Keeps _;
    discover = λ b u. on_rest-Keeps _;
    sanitize = λ h u. on_rest-Keeps _;
    update_feed = λ c f. on_conn-Keeps _ (performed (Write.updates_feed f));
    delete_feed = λ user id. on_conn-Keeps _ (performed (Write.deletes_feed user id));
    set_feed_url = λ user id u t. on_conn-Keeps _ (performed (Write.sets_feed_url user id u t));
    weekly_entry_count =
        λ id t. on_conn-Keeps _ (query-KeepsSound (weekly_entry_count id _ (to_unix t)));
    upsert_entries = λ id es. on_conn-Keeps _ (upsert_entries-Triple lib id es);
    entry_dedup = λ id gs. on_conn-Keeps _ (dedup_chunks-KeepsSound _ id gs _);
  }

  -- A poll on the store keeps the invariant of the tables, whatever the feed's server, the parser and
  -- the sanitiser answer, whether one of them panics, and whichever statements the driver fails: no
  -- feed ends up with two entries of one GUID or with an entry whose GUID has a tombstone.
  pub poll_feed-IsSound :
      (w : World (Machine X))
      → IsSound w.env.conn.db
      → IsSound (poll_feed (service lib o) w).1.env.conn.db
  poll_feed-IsSound w h =
      ((poll_feed-Keeps (service lib o) service-PortsKeep).at w
        (record { holds = record { sound = h } })).holds.sound

  -- The store never panics, as the theorems on single polls ask of `UpdateFeed`.
  pub service-UpdateReturns : UpdateReturns (service lib o)
  unfolding service on_conn run
  service-UpdateReturns = λ c f m. refl
