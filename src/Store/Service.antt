-- ===== src/Store/Service.antt =====
-- The feed service over the store: the port `FeedStore` as `*sqlite.Store` implements it, beside the
-- other ports, which have no access to the tables.
pub mod Polls
use bfeed.Base.{ℕ, Bool, Option, none, some, List}
use bfeed.Base.Exec.{Step, Exec}
use bfeed.Base.Text.{Text}
use bfeed.Core.Types.{RowId, Time, Feed, Entry, Result}
use bfeed.Core.Schedule.{Float64}
use bfeed.Core.Ports.{Clock, Fetcher, FeedParser, Sanitizer, FeedStore, Strings, Urls, Ctx}
use bfeed.Core.Feed.World.{FeedService, FeedServiceConfig}
use bfeed.Store.Rows.{CategoryRow}
use bfeed.Store.Sql.{Conn, Sql, run}
use bfeed.Store.Upsert.{Sqlite, upsert_entries}
use bfeed.Store.Dedup.{entry_dedup}
use bfeed.Store.Feeds
use bfeed.Store.Categories
use bfeed.Store.Listing

-- The connection, and what the other ports act on.
pub record Machine (X : Type 0) : Type 0 where
  pub conn : Conn
  pub rest : X

module _ {X A : Type 0} where
  abbrev pub with_conn : Machine X → Step (Result A) × Conn → Step (Result A) × Machine X
  with_conn m (r, c) = (r, record m { conn = c })

  abbrev pub with_rest : Machine X → Step A × X → Step A × Machine X
  with_rest m (r, x) = (r, record m { rest = x })

  -- A call of the store; a context that is cancelled is one way for a statement to fail.
  unfoldable pub on_conn : Sql A → Exec (Machine X) (Result A)
  on_conn op m = with_conn m (run op m.conn)

  unfoldable pub on_rest : Exec X A → Exec (Machine X) A
  on_rest op m = with_rest m (op m.rest)

-- What the feed service takes from elsewhere, but for the store.
pub record Others (X F U : Type 0) : Type 0 where
  pub fetcher : Fetcher X
  pub parser : FeedParser X
  pub san : Sanitizer X
  pub clk : Clock X
  pub cfg : FeedServiceConfig F
  pub floats : Float64 F
  pub strings : Strings
  pub urls : Urls U

module _ {X : Type 0} (lib : Sqlite) where
  unfoldable pub sqlite_store : FeedStore (Machine X)
  unfolding on_conn
  sqlite_store = record {
    create_feed = λ f. on_conn (Feeds.create_feed f);
    get_feed = λ user id. on_conn (Feeds.get_feed user id);
    update_feed = λ ctx f. on_conn (Feeds.update_feed f);
    delete_feed = λ user id. on_conn (Feeds.delete_feed user id);
    set_feed_category = λ user id c. on_conn (Feeds.set_feed_category user id c);
    set_feed_full_content = λ user id on at. on_conn (Feeds.set_feed_full_content user id on at);
    set_feed_user_title = λ user id t. on_conn (Feeds.set_feed_user_title user id t);
    set_feed_url = λ user id u now. on_conn (Feeds.set_feed_url user id u now);
    weekly_entry_count = λ id now. on_conn (Feeds.weekly_entry_count id now);
    upsert_entries = λ id es. on_conn (upsert_entries lib id es);
    entry_dedup = λ id guids. on_conn (entry_dedup id guids);
    get_category = λ user id. on_conn (Categories.get_category user id);
  }

module _ {X F U : Type 0} (lib : Sqlite) (o : Others X F U) where
  unfoldable pub clock_of : Clock (Machine X)
  clock_of = record {
    now = λ m. let (t, x) = o.clk.now m.rest in (t, record m { rest = x });
    ctx_done = λ m. let (b, x) = o.clk.ctx_done m.rest in (b, record m { rest = x });
  }

  -- `NewFeedService` with the store, as `serve` builds it.
  unfoldable pub service : FeedService (Machine X) F U
  unfolding sqlite_store on_rest clock_of
  service = record {
    store = sqlite_store lib;
    fetcher = record { fetch = λ q. on_rest (o.fetcher.fetch q) };
    parser = record {
      parse = λ b t u. on_rest (o.parser.parse b t u);
      discover = λ b u. on_rest (o.parser.discover b u);
    };
    san = record { sanitize = λ h u. on_rest (o.san.sanitize h u) };
    clk = clock_of;
    cfg = o.cfg;
    floats = o.floats;
    strings = o.strings;
    urls = o.urls;
  }
