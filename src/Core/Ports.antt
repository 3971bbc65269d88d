-- ===== src/Core/Ports.antt =====
-- internal/core/ports.go: what the services are given. Each operation acts on an environment `S`,
-- which stands for the database, the network, the clock and whatever other goroutines do meanwhile.
use bfeed.Base.{ℕ, Bool, Option, List}
use bfeed.Base.Text.{Text}
use bfeed.Base.Exec.{Exec}
use bfeed.Core.Types.{RowId, Duration, Time, Result, Category, Feed, Entry, ExtractState}

pub record FetchRequest : Type 0 where
  pub url : Text
  pub etag : Text
  pub last_modified : Text

pub record FetchResponse : Type 0 where
  pub status : ℕ
  pub not_modified : Bool
  pub body : Text
  pub content_type : Text
  pub etag : Text
  pub last_modified : Text
  pub retry_after : Duration
  pub final_url : Text
  pub permanent_redirect : Bool

pub record ParsedEntry : Type 0 where
  pub guid : Text
  pub url : Text
  pub title : Text
  pub author : Text
  pub content : Text
  pub summary : Text
  pub comments_url : Text
  pub published_at : Time
  pub hash : Text

pub record ParsedFeed : Type 0 where
  pub title : Text
  pub site_url : Text
  pub description : Text
  pub ttl : Duration
  pub entries : List ParsedEntry

-- The context of a store call: the caller's own, or one detached from its cancellation.
pub data Ctx : Type 0 where
  caller detached : Ctx

-- The clock, and whether the caller's context is done when it is asked.
pub record Clock (S : Type 0) : Type 0 where
  pub now : S → Time × S
  pub ctx_done : S → Bool × S

pub record Fetcher (S : Type 0) : Type 0 where
  pub fetch : FetchRequest → Exec S (Result FetchResponse)

-- A nil feed is `none`.
pub record FeedParser (S : Type 0) : Type 0 where
  pub parse : Text → Text → Text → Exec S (Result (Option ParsedFeed))
  pub discover : Text → Text → Exec S (Result (List Text))

pub record Sanitizer (S : Type 0) : Type 0 where
  pub sanitize : Text → Text → Exec S Text

pub record Extractor (S : Type 0) : Type 0 where
  pub extract : Text → Text → Text → Exec S (Result Text)

-- What `EntryDedup` returns: the hash of each known GUID, and the tombstoned GUIDs.
pub record Dedup : Type 0 where
  pub existing : Text → Option Text
  pub tombstoned : Text → Bool

-- The operations of `Store` that `FeedService` calls.
pub record FeedStore (S : Type 0) : Type 0 where
  pub create_feed : Feed → Exec S (Result RowId)
  pub get_feed : RowId → RowId → Exec S (Result Feed)
  pub update_feed : Ctx → Feed → Exec S (Result (Unit {0}))
  pub delete_feed : RowId → RowId → Exec S (Result (Unit {0}))
  pub set_feed_category : RowId → RowId → Option RowId → Exec S (Result (Unit {0}))
  pub set_feed_full_content : RowId → RowId → Bool → Time → Exec S (Result (Unit {0}))
  pub set_feed_user_title : RowId → RowId → Text → Exec S (Result (Unit {0}))
  pub set_feed_url : RowId → RowId → Text → Time → Exec S (Result (Unit {0}))
  pub weekly_entry_count : RowId → Time → Exec S (Result ℕ)
  pub upsert_entries : RowId → List Entry → Exec S (Result (List Entry))
  pub entry_dedup : RowId → List Text → Exec S (Result Dedup)
  pub get_category : RowId → RowId → Exec S (Result Category)

-- The operations of `Store` that `ScrapeService` calls.
pub record ScrapeStore (S : Type 0) : Type 0 where
  pub set_entry_content : RowId → Text → Exec S (Result (Unit {0}))
  pub update_extract_state :
      RowId → ExtractState → ℕ → Option Time → Text → Exec S (Result (Unit {0}))

-- Functions of the strings and strconv packages.
pub record Strings : Type 0 where
  pub trim_space : Text → Text
  pub to_lower : Text → Text
  pub decimal : ℕ → Text
  pub quote : Text → Text
  pub contains : Text → Text → Bool

-- net/url, with `U` the parsed URLs.
pub record Urls (U : Type 0) : Type 0 where
  pub parse : Text → Option U
  pub scheme : U → Text
  pub host : U → Text
  pub port : U → Text
  pub hostname : U → Text
  pub with_scheme : Text → U → U
  pub with_host : Text → U → U
  pub without_fragment : U → U
  pub to_text : U → Text
