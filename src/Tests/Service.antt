-- ===== src/Tests/Service.antt =====
-- A concrete feed service, over a clock that ticks once a second and a store that accepts all.
use bfeed.Base.{ℕ, suc, ◌*◌, ◌/◌, ltb, Bool, true, false, none, [], ◌∷◌}
use bfeed.Base.Int.{pos, pos_part}
use bfeed.Base.Text.{codes}
use bfeed.Base.Exec.{Step, returned, Exec}
use bfeed.Core.Types.{Feed, Result, ok, err, second, minute, hour}
use bfeed.Core.Schedule.{Float64, ScheduleConfig}
use bfeed.Core.Ports.{Clock, FeedStore, FetchResponse, Strings, Urls}
use bfeed.Core.Feed.World.{FeedService, FeedServiceConfig, World}

abbrev pub no_floats : Float64 ℕ
no_floats = record {
  of_int = pos_part;
  mul = λ a b. a * b;
  div = λ a b. a / b;
  to_duration = λ a. pos a;
  is_positive = λ a. ltb 0 a;
  one = 1;
}

abbrev pub schedule : ScheduleConfig ℕ
schedule = record { min_interval = pos (5 * minute); max_interval = pos (24 * hour); factor = 1 }

abbrev pub config : FeedServiceConfig ℕ
config = record {
  schedule = schedule;
  reschedule = record { interval = pos (5 * minute); max_backoff = pos (24 * hour) };
  jitter = none;
}

abbrev pub ticking : Clock ℕ
ticking = record { now = λ n. (pos (n * second), suc n); ctx_done = λ n. (false, n) }

abbrev pub stopped : Clock ℕ
stopped = record { now = λ n. (pos (n * second), suc n); ctx_done = λ n. (true, n) }

abbrev pub plain_strings : Strings
plain_strings = record {
  trim_space = λ t. t;
  to_lower = λ t. t;
  decimal = λ n. n ∷ [];
  quote = λ t. t;
  contains = λ t u. false;
}

abbrev pub no_urls : Urls ℕ
no_urls = record {
  parse = λ t. none;
  scheme = λ u. [];
  host = λ u. [];
  port = λ u. [];
  hostname = λ u. [];
  with_scheme = λ t u. u;
  with_host = λ t u. u;
  without_fragment = λ u. u;
  to_text = λ u. [];
}

abbrev pub done : Exec ℕ (Result (Unit {0}))
done n = (returned (ok tt), n)

abbrev pub accepting : FeedStore ℕ
accepting = record {
  create_feed = λ f n. (returned (ok (pos 1)), n);
  get_feed = λ u i n. (returned (err (record { chain = []; message = [] })), n);
  update_feed = λ c f. done;
  delete_feed = λ u i. done;
  set_feed_category = λ u i c. done;
  set_feed_full_content = λ u i b t. done;
  set_feed_user_title = λ u i t. done;
  set_feed_url = λ u i t now. done;
  weekly_entry_count = λ i now n. (returned (ok 7), n);
  upsert_entries = λ i es n. (returned (ok es), n);
  entry_dedup =
      λ i gs n. (returned (ok (record { existing = λ g. none; tombstoned = λ g. false })), n);
  get_category = λ u i n. (returned (err (record { chain = []; message = [] })), n);
}

-- The service whose server gives a fixed answer.
abbrev pub service : Clock ℕ → Step (Result FetchResponse) → FeedService ℕ ℕ ℕ
service clk answer = record {
  store = accepting;
  fetcher = record { fetch = λ req n. (answer, n) };
  parser = record {
    parse = λ b c u n. (returned (err (record { chain = []; message = codes "no feed" })), n);
    discover = λ b u n. (returned (ok []), n);
  };
  san = record { sanitize = λ h u n. (returned h, n) };
  clk = clk;
  cfg = config;
  floats = no_floats;
  strings = plain_strings;
  urls = no_urls;
}

abbrev pub answer : ℕ → Bool → Step (Result FetchResponse)
answer status not_modified = returned (
    ok (record {
      status = status;
      not_modified = not_modified;
      body = [];
      content_type = [];
      etag = [];
      last_modified = [];
      retry_after = pos 0;
      final_url = [];
      permanent_redirect = false;
    }))

abbrev pub sample_feed : Feed
sample_feed = record {
  id = pos 1;
  user_id = pos 1;
  category_id = none;
  feed_url = codes "http://a/f";
  site_url = [];
  title = [];
  user_title = [];
  description = [];
  etag = [];
  last_modified = [];
  disabled = false;
  fetch_full_content = false;
  checked_at = none;
  next_check_at = pos 0;
  error_count = 0;
  last_error = [];
  ttl = pos 0;
  created_at = pos 0;
  updated_at = pos 0;
}

abbrev pub start : World ℕ
start = record { env = 1000; feed = sample_feed; counted = true; metrics = [] }
