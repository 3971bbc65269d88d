-- ===== src/Store/Queries/Extraction.antt =====
-- sqlc/entries.sql.go: the statements on the state of extractions.
use bfeed.Base.{ℕ, Bool, true, false, ◌&&◌, ◌||◌, Option, none, some, List, [], count}
use bfeed.Base.Int.{ℤ, eq_ℤ, leb_ℤ, ltb_ℤ}
use bfeed.Base.Text.{Text}
use bfeed.Core.Types.{RowId, ExtractState, idle, pending, done, failed}
use bfeed.Store.Table.{select, update, order_by, limit_to}
use bfeed.Store.Rows.{Db, EntryRow}
use bfeed.Store.Sql.{SqlResult}

abbrev pub is_pending : EntryRow → Bool
is_pending r = elim r.extract_state [ pending ↦ true | _ ↦ false ]

-- `extract_state IN ('none','failed')`
abbrev pub is_idle_or_failed : EntryRow → Bool
is_idle_or_failed r = elim r.extract_state [ idle ↦ true | failed ↦ true | _ ↦ false ]

-- `extract_state IN ('pending','failed')`
abbrev pub is_pending_or_failed : EntryRow → Bool
is_pending_or_failed r = elim r.extract_state [ pending ↦ true | failed ↦ true | _ ↦ false ]

-- `extract_state = 'pending' AND next_extract_at <= ?`; NULL compares to nothing.
abbrev pub is_due : ℤ → EntryRow → Bool
is_due now r = is_pending r && elim r.next_extract_at [ none ↦ false | some t ↦ leb_ℤ t now ]

-- `ORDER BY published_at DESC, id DESC`
abbrev pub newer : EntryRow → EntryRow → Bool
newer r s =
    ltb_ℤ s.published_at r.published_at || (eq_ℤ r.published_at s.published_at && ltb_ℤ s.id r.id)

-- `ListPendingExtractions`
unfoldable pub list_pending_extractions : ℤ → ℤ → Db → SqlResult (List EntryRow)
list_pending_extractions now limit db =
    SqlResult.done (limit_to limit (order_by newer (select (is_due now) db.entries)))

-- `CountEntries`, `CountDueExtractions`
unfoldable pub count_entries : Db → SqlResult ℕ
count_entries db = SqlResult.done (count (λ r. true) db.entries)

unfoldable pub count_due_extractions : ℤ → Db → SqlResult ℕ
count_due_extractions now db = SqlResult.done (count (is_due now) db.entries)

unfoldable pub mark_done : Text → Text → EntryRow → EntryRow
mark_done content text r = record r {
  content = content;
  content_text = text;
  extract_state = done;
  next_extract_at = none;
  extract_error = [];
}

-- `SetEntryContent`
unfoldable pub set_entry_content : Text → Text → RowId → Db → SqlResult (Unit {0} × Db)
unfolding mark_done
set_entry_content content text id db = SqlResult.done (
  tt,
  record db {
    entries = update (λ r. eq_ℤ r.id id && is_pending r) (mark_done content text) db.entries;
  },
)

unfoldable pub set_extract : ExtractState → ℕ → Option ℤ → Text → EntryRow → EntryRow
set_extract state attempts at reason r = record r {
  extract_state = state;
  extract_attempts = attempts;
  next_extract_at = at;
  extract_error = reason;
}

-- `UpdateExtractState`
unfoldable pub update_extract_state :
    ExtractState → ℕ → Option ℤ → Text → RowId → Db → SqlResult (Unit {0} × Db)
unfolding set_extract
update_extract_state state attempts at reason id db = SqlResult.done (
  tt,
  record db {
    entries = update (λ r. eq_ℤ r.id id) (set_extract state attempts at reason) db.entries;
  },
)

unfoldable pub queue : ℤ → EntryRow → EntryRow
queue at r = record r {
  extract_state = pending;
  next_extract_at = some at;
  extract_attempts = 0;
  extract_error = [];
}

-- `MarkFeedEntriesPending`
unfoldable pub mark_feed_entries_pending : ℤ → RowId → Db → SqlResult (Unit {0} × Db)
unfolding queue
mark_feed_entries_pending at feed db = SqlResult.done (
  tt,
  record db {
    entries = update (λ r. eq_ℤ r.feed_id feed && is_idle_or_failed r) (queue at) db.entries;
  },
)

unfoldable pub unqueue : EntryRow → EntryRow
unqueue r = record r { extract_state = idle; next_extract_at = none; extract_error = [] }

-- `CancelFeedExtractions`
unfoldable pub cancel_feed_extractions : RowId → Db → SqlResult (Unit {0} × Db)
unfolding unqueue
cancel_feed_extractions feed db = SqlResult.done (
  tt,
  record db {
    entries = update (λ r. eq_ℤ r.feed_id feed && is_pending_or_failed r) unqueue db.entries;
  },
)
