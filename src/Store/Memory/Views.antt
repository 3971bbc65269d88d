-- ===== src/Store/Memory/Views.antt =====
-- What the two stores hold of one feed, GUID by GUID.
use bfeed.Base.{
  ◌≤◌, ◌≡◌, refl, sym, ◌∙◌, if◌then◌else◌, Bool, true, false, some, List, [], ◌∷◌, count,
  Bool-cases, inl, inr, arith,
}
use mathlib.Core.Path.{subst}
use mathlib.Core.Option
use bfeed.Base.Int.{ℤ}
use bfeed.Base.Text.{Text, text_eq, text_eq_refl, eq_of_text_eq}
use bfeed.Core.Types.{RowId, Entry, EntryStatus, ExtractState}
use bfeed.Store.Table.{find, update}
use bfeed.Store.Rows.{EntryRow, is_set, to_unix}
use bfeed.Store.Queries.Entries.{set_content, set_metadata}
use bfeed.Store.Upsert.{Sqlite, update_params}
use bfeed.Store.Memory.{change_first, overwrite, is_extracted}

-- An entry but for its ids, the state of its extraction and the time it was read.
pub record View : Type 0 where
  user_id : RowId
  url : Text
  title : Text
  author : Text
  content : Text
  summary : Text
  comments_url : Text
  published_at : ℤ
  created_at : ℤ
  hash : Text
  status : EntryStatus
  starred : Bool
  extract_state : ExtractState

unfoldable pub row_view : EntryRow → View
row_view r = record {
  user_id = r.user_id;
  url = r.url;
  title = r.title;
  author = r.author;
  content = r.content;
  summary = r.summary;
  comments_url = r.comments_url;
  published_at = r.published_at;
  created_at = r.created_at;
  hash = r.hash;
  status = r.status;
  starred = is_set r.starred;
  extract_state = r.extract_state;
}

unfoldable pub entry_view : Entry → View
entry_view e = record {
  user_id = e.user_id;
  url = e.url;
  title = e.title;
  author = e.author;
  content = e.content;
  summary = e.summary;
  comments_url = e.comments_url;
  published_at = to_unix e.published_at;
  created_at = to_unix e.created_at;
  hash = e.hash;
  status = e.status;
  starred = e.starred;
  extract_state = e.extract_state;
}

-- The view of an entry that a poll brings again.
unfoldable pub changed : Entry → View → View
changed e v = if text_eq v.hash e.hash then v else record v {
  title = e.title;
  author = e.author;
  content = if is_extracted v.extract_state then v.content else e.content;
  summary = e.summary;
  published_at = to_unix e.published_at;
  url = e.url;
  hash = e.hash;
  comments_url = e.comments_url;
}

pub entry_view-overwrite : (e x : Entry) → entry_view (overwrite e x) ≡ changed e (entry_view x)
unfolding entry_view overwrite changed
entry_view-overwrite e x = elim (Bool-cases (text_eq x.hash e.hash)) [
  | inl h ↦ rw h refl
  | inr h ↦ rw h refl
]

module _ (lib : Sqlite) (feed : RowId) (id : RowId) (e : Entry) (r : EntryRow) where
  pub row_view-set_content :
      text_eq r.hash e.hash ≡ false
      → is_extracted r.extract_state ≡ false
      → row_view (set_content (update_params lib feed id e) r) ≡ changed e (row_view r)
  unfolding row_view set_content update_params changed
  row_view-set_content h d = rw (h, d) refl

  pub row_view-set_metadata :
      text_eq r.hash e.hash ≡ false
      → is_extracted r.extract_state ≡ true
      → row_view (set_metadata (update_params lib feed id e) r) ≡ changed e (row_view r)
  unfolding row_view set_metadata update_params changed
  row_view-set_metadata h d = rw (h, d) refl

  pub changed_of_same_hash : text_eq r.hash e.hash ≡ true → changed e (row_view r) ≡ row_view r
  unfolding row_view changed
  changed_of_same_hash h = rw h refl

-- A key has one GUID.
pub one_guid :
    {A : Type 0} (k : A → Text) (x : A) (g h : Text)
    → text_eq (k x) g ≡ true
    → text_eq (k x) h ≡ true
    → text_eq g h ≡ true
one_guid k x g h i j =
    let u = eq_of_text_eq (k x) g i in
    let v = eq_of_text_eq (k x) h j in subst (λ t. text_eq g t ≡ true) (sym u ∙ v) (text_eq_refl g)

module _ {A : Type 0} where
  counted :
      (p u : A → Bool) (rs : List A) (r : A) → find p rs ≡ some r → u r ≡ true → 1 ≤ count u rs
  unfolding find
  counted p u [] r h i = cc
  counted p u (s ∷ rs) r h i = ground (arith, h, i, counted p u rs r)

  pub found_is : (p : A → Bool) (rs : List A) (r : A) → find p rs ≡ some r → p r ≡ true
  unfolding find
  found_is p [] r h = cc
  found_is p (s ∷ rs) r h = ground (arith, h, found_is p rs r)

  pub find-update :
      (p q : A → Bool) (f : A → A) (rs : List A)
      → ((s : A) → p (f s) ≡ p s)
      → find p (update q f rs) ≡ Option.map (λ s. if q s then f s else s) (find p rs)
  unfolding find update
  find-update p q f [] k = refl
  find-update p q f (s ∷ rs) k = ground (arith, k s, find-update p q f rs k)

  pub find-change_first :
      (p q : A → Bool) (f : A → A) (rs : List A)
      → ((s : A) → p (f s) ≡ p s)
      → ((s : A) → q s ≡ p s)
      → find p (change_first q f rs) ≡ Option.map f (find p rs)
  unfolding find change_first
  find-change_first p q f [] k h = refl
  find-change_first p q f (s ∷ rs) k h = ground (arith, k s, h s, find-change_first p q f rs k h)

  pub find-change_other :
      (p q : A → Bool) (f : A → A) (rs : List A)
      → ((s : A) → p (f s) ≡ p s)
      → ((s : A) → q s ≡ true → p s ≡ false)
      → find p (change_first q f rs) ≡ find p rs
  unfolding find change_first
  find-change_other p q f [] k h = refl
  find-change_other p q f (s ∷ rs) k h = ground (arith, k s, h s, find-change_other p q f rs k h)

  -- Of two rows that different queries find, only one passes a test of a unique column.
  pub unique_found :
      (p q u : A → Bool) (rs : List A) (r s : A)
      → count u rs ≤ 1
      → find p rs ≡ some r
      → u r ≡ true
      → find q rs ≡ some s
      → p s ≡ false
      → u s ≡ false
  unfolding find
  unique_found p q u [] r s n h i j k = cc
  unique_found p q u (x ∷ rs) r s n h i j k = ground (
    arith,
    n,
    h,
    i,
    j,
    k,
    counted p u rs r,
    counted q u rs s,
    unique_found p q u rs r s,
    found_is p rs r,
  )
