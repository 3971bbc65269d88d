-- ===== src/Tests/Scrape.antt =====
-- The examples for an extraction.
use bfeed.Base.{ℕ, ◌≡◌, ◌*◌, ◌^◌, min, true, false, none, [], arith}
use bfeed.Base.Int.{pos}
use bfeed.Base.Text.{codes}
use bfeed.Base.Exec.{returned, panicked}
use bfeed.Core.Types.{Entry, ok, unread, pending, minute, hour}
use bfeed.Core.Scrape.Backoff.{extract_backoff, extract_backoff_exact}
use bfeed.Core.Scrape.Service.{ScrapeService, Scrape}
use bfeed.Tests.Service.{ticking, plain_strings, done}

abbrev entry : Entry
entry = record {
  id = pos 1;
  user_id = pos 1;
  feed_id = pos 1;
  guid = codes "g";
  url = codes "http://a/1";
  title = [];
  author = [];
  content = [];
  summary = [];
  published_at = pos 0;
  status = unread;
  starred = false;
  read_at = none;
  created_at = pos 0;
  hash = [];
  comments_url = [];
  extract_state = pending;
  extract_attempts = 0;
  extract_error = [];
}

-- A service whose fetch panics.
abbrev service : ScrapeService ℕ
service = record {
  store = record { set_entry_content = λ i t. done; update_extract_state = λ i x n at t. done };
  fetcher = record { fetch = λ req n. (panicked [], n) };
  ext = record { extract = λ u b c n. (returned (ok []), n) };
  san = record { sanitize = λ h u n. (returned h, n) };
  clk = ticking;
  cfg = record {
    max_attempts = 3;
    base_backoff = pos (10 * minute);
    max_backoff = pos (24 * hour);
  };
  jitter = none;
  strings = plain_strings;
}

abbrev start : Scrape ℕ
start = record { env = 1000; counted = true; metrics = [] }

extract_backoff_exact_example :
    extract_backoff
      (record { max_attempts = 3; base_backoff = pos (10 * minute); max_backoff = pos (24 * hour) })
      3
      none
    ≡ pos (min (10 * minute * 2 ^ 2) (24 * hour))
extract_backoff_exact_example =
    extract_backoff_exact 3 (10 * minute) (24 * hour) 2 (omega arith) (omega arith) (omega arith)
