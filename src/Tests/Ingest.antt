-- ===== src/Tests/Ingest.antt =====
-- The example for the entries of a poll.
use bfeed.Base.{if◌then◌else◌, false, none, some, List, [], ◌∷◌}
use bfeed.Base.Int.{pos}
use bfeed.Base.Text.{Text, codes, text_eq}
use bfeed.Base.Exec.Ensures.{Gives}
use bfeed.Core.Ports.{Dedup, ParsedEntry}
use bfeed.Core.Feed.Record.{new_entries}
use bfeed.Core.Feed.Ingest.{Picks, new_entries-Gives}
use bfeed.Tests.Service.{service, ticking, answer, start, sample_feed}

abbrev parsed : Text → ParsedEntry
parsed guid = record {
  guid = guid;
  url = [];
  title = [];
  author = [];
  content = [];
  summary = [];
  comments_url = [];
  published_at = pos 0;
  hash = codes "h";
}

-- The entry "a" is deleted, "b" is stored unchanged, and "c" with another hash.
abbrev dedup : Dedup
dedup = record {
  existing = λ guid.
      if text_eq guid (codes "b")
      then some (codes "h")
      else if text_eq guid (codes "c")
      then some (codes "g")
      else none;
  tombstoned = λ guid. text_eq guid (codes "a");
}

abbrev pub items : List ParsedEntry
items = parsed (codes "a") ∷ parsed (codes "b") ∷ parsed (codes "c") ∷ parsed (codes "d") ∷ []

new_entries_example :
    Gives
      (Picks sample_feed dedup items)
      (new_entries (service ticking (answer 200 false)) sample_feed (pos 9) [] dedup items start).0
new_entries_example =
    new_entries-Gives (service ticking (answer 200 false)) sample_feed (pos 9) [] dedup items start
