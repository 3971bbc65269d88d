-- ===== src/Store/Dedup.antt =====
-- `EntryDedup` of entries.go: what a poll already has of the GUIDs of a feed, in chunks of 500.
pub mod Chunks
use bfeed.Base.{
  ℕ, zero, suc, if◌then◌else◌, Bool, true, false, ◌&&◌, ◌||◌, Option, none, some, List, [], ◌∷◌,
  take, length,
}
use bfeed.Base.Int.{eq_ℤ}
use bfeed.Base.Text.{Text, text_eq}
use bfeed.Core.Types.{RowId}
use bfeed.Core.Ports.{Dedup}
use bfeed.Store.Table.{select, drop}
use bfeed.Store.Rows.{Db, EntryRow, TombstoneRow}
use bfeed.Store.Sql.{Sql, SqlResult, done, give, query, ◌>>=◌}

-- `guid IN (…)`
unfoldable pub is_one_of : List Text → Text → Bool
is_one_of [] t = false
is_one_of (g ∷ gs) t = text_eq g t || is_one_of gs t

-- `SELECT guid, hash FROM entries WHERE feed_id = ? AND guid IN (…)`
unfoldable pub select_hashes : RowId → List Text → Db → List EntryRow
select_hashes feed batch db = select (λ r. eq_ℤ r.feed_id feed && is_one_of batch r.guid) db.entries

-- `SELECT guid, guid FROM tombstones WHERE feed_id = ? AND guid IN (…)`
unfoldable pub select_tombstones : RowId → List Text → Db → List TombstoneRow
select_tombstones feed batch db =
    select (λ t. eq_ℤ t.feed_id feed && is_one_of batch t.guid) db.tombstones

-- `existing[g] = h` for each row, and `tombstoned[g] = true`
unfoldable pub put_hashes : List EntryRow → (Text → Option Text) → Text → Option Text
put_hashes [] m = m
put_hashes (r ∷ rs) m = put_hashes rs (λ t. if text_eq r.guid t then some r.hash else m t)

unfoldable pub put_tombstones : List TombstoneRow → (Text → Bool) → Text → Bool
put_tombstones [] m = m
put_tombstones (r ∷ rs) m = put_tombstones rs (λ t. if text_eq r.guid t then true else m t)

abbrev pub chunk : ℕ
chunk = 500

-- One round of the loop: the two queries of a batch.
unfoldable pub dedup_batch : RowId → List Text → Dedup → Sql Dedup
dedup_batch feed batch d = query (λ db. done (select_hashes feed batch db)) >>= λ hs.
    (query (λ db. done (select_tombstones feed batch db)) >>= λ ts.
    give
      (record { existing = put_hashes hs d.existing; tombstoned = put_tombstones ts d.tombstoned }))

-- The rounds, on fuel; each takes at least one GUID.
unfoldable pub dedup_chunks : ℕ → RowId → List Text → Dedup → Sql Dedup
unfolding dedup_batch
dedup_chunks zero feed guids d = give d
dedup_chunks (suc k) feed [] d = give d
dedup_chunks (suc k) feed (g ∷ gs) d =
    dedup_batch feed (take chunk (g ∷ gs)) d >>= λ d'. dedup_chunks k feed (drop chunk (g ∷ gs)) d'

unfoldable pub no_dedup : Dedup
no_dedup = record { existing = λ t. none; tombstoned = λ t. false }

-- `EntryDedup`
unfoldable pub entry_dedup : RowId → List Text → Sql Dedup
unfolding dedup_chunks no_dedup
entry_dedup feed guids = dedup_chunks (length guids) feed guids no_dedup
