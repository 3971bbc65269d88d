-- ===== src/Store/Rows.antt =====
-- The rows of the tables, as the migrations declare them, and their conversions to and from the
-- domain records: store.go, `feedFromRow`, `entryFromRow`, `categoryFromRow`.
use bfeed.Base.{ℕ, suc, ◌*◌, if◌then◌else◌, Bool, true, false, Option, none, some, List}
use bfeed.Base.Int.{ℤ, pos, negsuc, ◌+ℤ◌, sub_ℕ, leb_ℤ, eq_ℤ, quot_ℤ, wrap64}
use bfeed.Base.Text.{Text}
use bfeed.Core.Types.{
  RowId, Time, Duration, Feed, Entry, Category, EntryStatus, ExtractState, second, unix,
}

abbrev pub times_ℕ : ℤ → ℕ → ℤ
times_ℕ (pos n) k = pos (n * k)
times_ℕ (negsuc n) k = sub_ℕ 0 (suc n * k)

-- `toUnix`, and `fromUnix`: 62135596800 s lie between year 1 and 1970.
abbrev pub to_unix : Time → ℤ
to_unix t = unix t

unfoldable pub from_unix : ℤ → Time
unfolding ◌+ℤ◌
from_unix s = times_ℕ (s +ℤ pos 62_135_596_800) second

unfoldable pub null_unix : Option Time → Option ℤ
null_unix none = none
null_unix (some t) = some (to_unix t)

unfoldable pub ptr_unix : Option ℤ → Option Time
ptr_unix none = none
ptr_unix (some s) = some (from_unix s)

unfoldable pub null_dur_sec : Duration → Option ℤ
null_dur_sec d = if leb_ℤ d (pos 0) then none else some (quot_ℤ d second)

unfoldable pub dur_sec : Option ℤ → Duration
dur_sec none = pos 0
dur_sec (some s) = wrap64 (times_ℕ s second)

-- `b2i`, and the test `!= 0`
abbrev pub b2i : Bool → ℤ
b2i b = if b then pos 1 else pos 0

abbrev pub is_set : ℤ → Bool
is_set n = if eq_ℤ n (pos 0) then false else true

pub record FeedRow : Type 0 where
  pub id : RowId
  pub user_id : RowId
  pub feed_url : Text
  pub site_url : Text
  pub title : Text
  pub description : Text
  pub etag : Text
  pub last_modified : Text
  pub disabled : ℤ
  pub checked_at : Option ℤ
  pub next_check_at : ℤ
  pub error_count : ℕ
  pub last_error : Text
  pub created_at : ℤ
  pub updated_at : ℤ
  pub category_id : Option RowId
  pub fetch_full_content : ℤ
  pub user_title : Text
  pub ttl_seconds : Option ℤ

-- The columns `status` and `extract_state` have a CHECK for the values of the two types.
pub record EntryRow : Type 0 where
  pub id : RowId
  pub user_id : RowId
  pub feed_id : RowId
  pub guid : Text
  pub url : Text
  pub title : Text
  pub author : Text
  pub content : Text
  pub summary : Text
  pub published_at : ℤ
  pub status : EntryStatus
  pub starred : ℤ
  pub read_at : Option ℤ
  pub created_at : ℤ
  pub hash : Text
  pub extract_state : ExtractState
  pub extract_attempts : ℕ
  pub next_extract_at : Option ℤ
  pub extract_error : Text
  pub content_text : Text
  pub summary_text : Text
  pub comments_url : Text

pub record CategoryRow : Type 0 where
  pub id : RowId
  pub user_id : RowId
  pub title : Text

pub record TombstoneRow : Type 0 where
  pub feed_id : RowId
  pub guid : Text
  pub deleted_at : ℤ

pub record SettingRow : Type 0 where
  pub key : Text
  pub value : Text

-- The tables. `feed_sequence` is the last id of the AUTOINCREMENT column `feeds.id`.
pub record Db : Type 0 where
  pub users : List RowId
  pub feeds : List FeedRow
  pub entries : List EntryRow
  pub categories : List CategoryRow
  pub tombstones : List TombstoneRow
  pub settings : List SettingRow
  pub feed_sequence : ℕ

-- `feedFromRow`
unfoldable pub feed_from_row : FeedRow → Feed
unfolding ptr_unix
feed_from_row r = record {
  id = r.id;
  user_id = r.user_id;
  category_id = r.category_id;
  feed_url = r.feed_url;
  site_url = r.site_url;
  title = r.title;
  user_title = r.user_title;
  description = r.description;
  etag = r.etag;
  last_modified = r.last_modified;
  disabled = is_set r.disabled;
  fetch_full_content = is_set r.fetch_full_content;
  checked_at = ptr_unix r.checked_at;
  next_check_at = from_unix r.next_check_at;
  error_count = r.error_count;
  last_error = r.last_error;
  ttl = dur_sec r.ttl_seconds;
  created_at = from_unix r.created_at;
  updated_at = from_unix r.updated_at;
}

-- `entryFromRow`
unfoldable pub entry_from_row : EntryRow → Entry
unfolding ptr_unix
entry_from_row r = record {
  id = r.id;
  user_id = r.user_id;
  feed_id = r.feed_id;
  guid = r.guid;
  url = r.url;
  title = r.title;
  author = r.author;
  content = r.content;
  summary = r.summary;
  published_at = from_unix r.published_at;
  status = r.status;
  starred = is_set r.starred;
  read_at = ptr_unix r.read_at;
  created_at = from_unix r.created_at;
  hash = r.hash;
  comments_url = r.comments_url;
  extract_state = r.extract_state;
  extract_attempts = r.extract_attempts;
  extract_error = r.extract_error;
}

-- `categoryFromRow`
unfoldable pub category_from_row : CategoryRow → Category
category_from_row r = record { id = r.id; user_id = r.user_id; title = r.title }
