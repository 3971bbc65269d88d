-- ===== src/Tests/Machine.antt =====
-- The feed service over the store of a history of writes.
use bfeed.Base.{ℕ, ◌≡◌, true, false, none, some, List, [], ◌∷◌}
use bfeed.Base.Int.{pos}
use bfeed.Base.Exec.{returned}
use bfeed.Base.Text.{Text, codes}
use bfeed.Core.Types.{ok}
use bfeed.Core.Ports.{Dedup}
use bfeed.Core.Feed.World.{World}
use bfeed.Core.Feed.Poll.{poll_feed}
use bfeed.Store.Table.{find, exists}
use bfeed.Store.Rows.{Db}
use bfeed.Store.Sql.{done}
use bfeed.Store.Sound.{IsSound}
use bfeed.Store.Queries.Entries.{has_guid, buries}
use bfeed.Store.Dedup.{entry_dedup, is_one_of}
use bfeed.Store.Dedup.Chunks.{entry_dedup_lem, or_else}
use bfeed.Store.Writes.{after}
use bfeed.Store.Writes.Sound.{after-IsSound}
use bfeed.Store.Service.{Machine, Others}
use bfeed.Store.Service as Machines
use bfeed.Store.Service.Polls.{poll_feed-IsSound}
use bfeed.Tests.Service
use bfeed.Tests.Ingest.{items}
use bfeed.Tests.Service.{sample_feed, ticking, answer}
use bfeed.Tests.Store.{lib, fresh_category, history, start, no_rows_yet-IsSound}

abbrev written : Db
written = (after lib fresh_category history start).db

written-IsSound : IsSound written
written-IsSound = after-IsSound lib fresh_category history start no_rows_yet-IsSound

abbrev guids : List Text
guids = codes "a" ∷ codes "b" ∷ codes "c" ∷ []

entry_dedup_example :
    (d : Dedup) × (entry_dedup (pos 1) guids (record { db = written; faults = [] })
      ≡ (done d, record { db = written; faults = [] }))
    × ((t : Text)
        → is_one_of guids t ≡ true
        → (d.existing t ≡ or_else (find (has_guid (pos 1) t) written.entries) none)
          × (d.tombstoned t ≡ exists (buries (pos 1) t) written.tombstones))
entry_dedup_example = entry_dedup_lem (pos 1) written written-IsSound guids

abbrev others : Others ℕ ℕ ℕ
others =
    let s = Service.service ticking (answer 200 false) in
    record {
      fetcher = s.fetcher;
      parser = record {
        parse = λ b c u n. (
          returned (
              ok (
                some (record {
                  title = codes "T";
                  site_url = [];
                  description = [];
                  ttl = pos 0;
                  entries = items;
                }))),
          n,
        );
        discover = s.parser.discover;
      };
      san = s.san;
      clk = s.clk;
      cfg = s.cfg;
      floats = s.floats;
      strings = s.strings;
      urls = s.urls;
    }

abbrev world : World (Machine ℕ)
world = record {
  env = record { conn = record { db = written; faults = [] }; rest = 0 };
  feed = sample_feed;
  counted = true;
  metrics = [];
}

poll_feed-IsSound_example : IsSound (poll_feed (Machines.service lib others) world).1.env.conn.db
poll_feed-IsSound_example = poll_feed-IsSound lib others world written-IsSound
