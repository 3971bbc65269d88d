-- ===== src/Core/Types.antt =====
-- internal/core/types.go and internal/core/errors.go: the domain records.
-- `ID` and `time.Duration` are int64s. A `time.Time` is its nanoseconds since the zero time,
-- 1 January of year 1, so that `Add` is a sum and `IsZero` a test against 0.
use bfeed.Base.{ℕ, ◌*◌, ◌==◌, if◌then◌else◌, Bool, false, ◌||◌, Option, List, [], ◌∷◌}
use bfeed.Base.Int.{ℤ, pos, ◌-ℤ◌, floor_ℤ, eq_ℤ}
use bfeed.Base.Text.{Text, is_empty}

abbrev pub RowId : Type 0
RowId = ℤ

abbrev pub Duration : Type 0
Duration = ℤ

abbrev pub Time : Type 0
Time = ℤ

abbrev pub second : ℕ
second = 1_000_000_000

abbrev pub minute : ℕ
minute = 60 * second

abbrev pub hour : ℕ
hour = 60 * minute

abbrev pub zero_time : Time
zero_time = pos 0

abbrev pub is_zero_time : Time → Bool
is_zero_time t = eq_ℤ t zero_time

-- `Time.Unix`: the seconds since 1970; 62135596800 s lie between year 1 and 1970.
unfoldable pub unix : Time → ℤ
unfolding ◌-ℤ◌
unix t = floor_ℤ t second -ℤ pos 62_135_596_800

-- The sentinels that an error's chain of wrapped errors holds, and those of the standard library
-- that the code looks for.
pub data Sentinel : Type 0 where
  not_found conflict validation unauthorized : Sentinel
  canceled deadline_exceeded net_timeout dns tls : Sentinel

pub sentinel_code : Sentinel → ℕ
sentinel_code not_found = 0
sentinel_code conflict = 1
sentinel_code validation = 2
sentinel_code unauthorized = 3
sentinel_code canceled = 4
sentinel_code deadline_exceeded = 5
sentinel_code net_timeout = 6
sentinel_code dns = 7
sentinel_code tls = 8

pub record Error : Type 0 where
  pub chain : List Sentinel
  pub message : Text

is_in : Sentinel → List Sentinel → Bool
unfolding sentinel_code
is_in s [] = false
is_in s (t ∷ l) = (sentinel_code s == sentinel_code t) || is_in s l

-- `errors.Is`
unfoldable pub errors_is : Error → Sentinel → Bool
unfolding is_in
errors_is e s = is_in s e.chain

pub data Result {ℓ} (A : Type ℓ) : Type ℓ where
  ok : A → Result A
  err : Error → Result A

pub record Category : Type 0 where
  pub id : RowId
  pub user_id : RowId
  pub title : Text

pub record Feed : Type 0 where
  pub id : RowId
  pub user_id : RowId
  pub category_id : Option RowId
  pub feed_url : Text
  pub site_url : Text
  pub title : Text
  pub user_title : Text
  pub description : Text
  pub etag : Text
  pub last_modified : Text
  pub disabled : Bool
  pub fetch_full_content : Bool
  pub checked_at : Option Time
  pub next_check_at : Time
  pub error_count : ℕ
  pub last_error : Text
  pub ttl : Duration
  pub created_at : Time
  pub updated_at : Time

pub data EntryStatus : Type 0 where
  unread read : EntryStatus

-- `unset` is the zero value of the Go type, the empty text.
pub data ExtractState : Type 0 where
  idle pending done failed unset : ExtractState

pub record Entry : Type 0 where
  pub id : RowId
  pub user_id : RowId
  pub feed_id : RowId
  pub guid : Text
  pub url : Text
  pub title : Text
  pub author : Text
  pub content : Text
  pub summary : Text
  pub published_at : Time
  pub status : EntryStatus
  pub starred : Bool
  pub read_at : Option Time
  pub created_at : Time
  pub hash : Text
  pub comments_url : Text
  pub extract_state : ExtractState
  pub extract_attempts : ℕ
  pub extract_error : Text

pub data Order : Type 0 where
  published_desc read_at_desc : Order

pub record Cursor : Type 0 where
  pub key : ℤ
  pub id : RowId

-- `Feed.DisplayTitle`; `trim` is `strings.TrimSpace`.
unfoldable pub display_title : (Text → Text) → Feed → Text
display_title trim f = let t = trim f.user_title in if is_empty t then f.title else t
