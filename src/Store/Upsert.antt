-- ===== src/Store/Upsert.antt =====
-- `UpsertEntries`: the entries of a poll, in one transaction.
pub mod Steps
pub mod Sound
pub mod Growth
use bfeed.Base.{ℕ, if◌then◌else◌, Bool, true, false, not, Option, none, some, List, [], ◌∷◌, ◌++◌}
use bfeed.Base.Int.{ℤ, pos, eq_ℤ}
use bfeed.Base.Text.{Text, text_eq}
use bfeed.Core.Types.{RowId, Entry, ExtractState, idle, pending, done, failed, unread}
use bfeed.Store.Rows.{Db, EntryRow, to_unix}
use bfeed.Store.Sql.{
  Sql, SqlResult, SqlError, no_rows, other, Conn, give, fail, query, statement, transaction_or,
  ◌>>=◌,
}
use bfeed.Store.Queries.Entries.{
  InsertEntryParams, UpdateEntryParams, get_entry_by_guid, tombstone_exists, insert_entry,
  update_entry_content, update_entry_metadata, get_feed_full_content,
}

-- What the store takes from elsewhere: the rowid that SQLite picks for a new entry, `PlainText`, and
-- whether a text comes before another or is the same to COLLATE NOCASE.
pub record Sqlite : Type 0 where
  pub fresh_entry : List EntryRow → RowId
  pub plain_text : Text → Text
  pub nocase : Text → Text → Bool

-- A query whose missing row is no error: `errors.Is(err, sql.ErrNoRows)` and the two other cases.
module _ {A : Type 0} where
  abbrev pub optional : SqlResult A × Conn → SqlResult (Option A) × Conn
  optional (SqlResult.done a, c) = (SqlResult.done (some a), c)
  optional (SqlResult.failed no_rows, c) = (SqlResult.done none, c)
  optional (SqlResult.failed e, c) = (SqlResult.failed e, c)

  unfoldable pub lookup : Sql A → Sql (Option A)
  lookup m c = optional (m c)

unfoldable pub insert_state : ℤ → ExtractState
insert_state ff = if eq_ℤ ff (pos 1) then pending else idle

module _ (lib : Sqlite) (feed : RowId) where
  unfoldable pub insert_params : ExtractState → Entry → InsertEntryParams
  insert_params state e = record {
    user_id = e.user_id;
    feed_id = feed;
    guid = e.guid;
    url = e.url;
    title = e.title;
    author = e.author;
    content = e.content;
    summary = e.summary;
    content_text = lib.plain_text e.content;
    summary_text = lib.plain_text e.summary;
    comments_url = e.comments_url;
    published_at = to_unix e.published_at;
    created_at = to_unix e.created_at;
    hash = e.hash;
    extract_state = state;
    next_extract_at = elim state [ pending ↦ some (to_unix e.created_at) | _ ↦ none ];
  }

  unfoldable pub update_params : RowId → Entry → UpdateEntryParams
  update_params id e = record {
    title = e.title;
    author = e.author;
    content = e.content;
    summary = e.summary;
    content_text = lib.plain_text e.content;
    summary_text = lib.plain_text e.summary;
    comments_url = e.comments_url;
    published_at = to_unix e.published_at;
    url = e.url;
    hash = e.hash;
    id = id;
    user_id = e.user_id;
  }

  abbrev is_done : EntryRow → Bool
  is_done r = elim r.extract_state [ done ↦ true | _ ↦ false ]

  -- An entry that exists: in place, if its hash changed.
  unfoldable pub refresh : EntryRow → Entry → Sql (List Entry)
  unfolding update_params
  refresh existing e =
      if text_eq existing.hash e.hash
      then give []
      else if is_done existing
      then (statement (update_entry_metadata (update_params existing.id e)) >>= λ _. give [])
      else statement (update_entry_content (update_params existing.id e)) >>= λ _. give []

  unfoldable pub insert : ExtractState → Entry → Sql (List Entry)
  unfolding insert_params
  insert state e = statement (insert_entry lib.fresh_entry (insert_params state e)) >>= λ id.
      give (record e { id = id; status = unread; extract_state = state } ∷ [])

  unfoldable pub store_entry : ExtractState → Entry → Option EntryRow → Sql (List Entry)
  unfolding refresh insert
  store_entry state e none = insert state e
  store_entry state e (some existing) = refresh existing e

  unfoldable pub live_entry : ExtractState → Entry → Option (Unit {0}) → Sql (List Entry)
  unfolding store_entry
  live_entry state e (some _) = give []
  live_entry state e none = lookup (query (get_entry_by_guid feed e.guid)) >>= store_entry state e

  -- One round of the loop: the entry that it inserts, if any.
  unfoldable pub upsert_entry : ExtractState → Entry → Sql (List Entry)
  unfolding live_entry
  upsert_entry state e = lookup (query (tombstone_exists feed e.guid)) >>= live_entry state e

  unfoldable pub upsert_all : ExtractState → List Entry → Sql (List Entry)
  unfolding upsert_entry
  upsert_all state [] = give []
  upsert_all state (e ∷ es) =
      upsert_entry state e >>= λ is. (upsert_all state es >>= λ js. give (is ++ js))

  unfoldable pub upsert_into : List Entry → Option ℤ → Sql (Option (List Entry))
  unfolding upsert_all insert_state
  upsert_into es none = give none
  upsert_into es (some ff) = upsert_all (insert_state ff) es >>= λ is. give (some is)

  -- `UpsertEntries`; where the feed is gone, it returns nil and rolls back.
  unfoldable pub upsert_entries : List Entry → Sql (List Entry)
  unfolding upsert_into
  upsert_entries es =
      transaction_or [] (lookup (query (get_feed_full_content feed)) >>= upsert_into es)
