-- ===== src/Core/Feed/Edit.antt =====
-- `EditFeed`: the four user-editable fields, the URL first.
use bfeed.Base.{if◌then◌else◌, Bool, true, false, not, ◌&&◌, ◌||◌, Option, none, some}
use bfeed.Base.Text.{Text, text_eq, is_empty, codes}
use bfeed.Base.Int.{eq_ℤ}
use bfeed.Base.Exec.{pure, ◌>>=◌}
use bfeed.Core.Types.{RowId, Error, Result, ok, err, Feed}
use bfeed.Core.Urls.{http_url, normalize_feed_url}
use bfeed.Core.Feed.World.{FeedService, call, clock_now}
use bfeed.Core.Feed.Record.{Op}
use bfeed.Core.Feed.Poll.{invalid}
use bfeed.Core.Feed.Subscribe.{Done, ensure_category_owned, set_full_content}

-- The four fields that a user sets, and the report of `EditFeed`.
pub record EditFeedInput : Type 0 where
  pub title : Text
  pub url : Text
  pub category_id : Option RowId
  pub full_content : Bool

pub record EditFeedResult : Type 0 where
  pub url_changed : Bool
  pub category_changed : Bool
  pub error : Option Error

-- `sameID`
unfoldable pub same_id : Option RowId → Option RowId → Bool
same_id none none = true
same_id (some a) (some b) = eq_ℤ a b
same_id _ _ = false

abbrev bool_eq : Bool → Bool → Bool
bool_eq true b = b
bool_eq false b = not b

abbrev report : Bool → Bool → Option Error → EditFeedResult
report u c e = record { url_changed = u; category_changed = c; error = e }

module _ {S F U : Type 0} (s : FeedService S F U) where
  module _ (user_id feed_id : RowId) (input : EditFeedInput) where
    finished : Bool → Bool → Done → Op s EditFeedResult
    finished u c (err e) = pure (report u c (some e))
    finished u c (ok _) = pure (report u c none)

    edit_full_content : Feed → Bool → Bool → Op s EditFeedResult
    unfolding finished
    edit_full_content f u c =
        if bool_eq input.full_content f.fetch_full_content
        then pure (report u c none)
        else do r ← set_full_content s user_id feed_id input.full_content; finished u c r

    category_edited : Feed → Bool → Done → Op s EditFeedResult
    unfolding edit_full_content
    category_edited f u (err e) = pure (report u false (some e))
    category_edited f u (ok _) = edit_full_content f u true

    edit_category : Feed → Bool → Done → Op s EditFeedResult
    unfolding category_edited
    edit_category f u (err e) = pure (report u false (some e))
    edit_category f u (ok _) =
        if same_id f.category_id input.category_id then edit_full_content f u false else do
          r ← call (s.store.set_feed_category user_id feed_id input.category_id)
          category_edited f u r

    edit_title : Feed → Bool → Op s EditFeedResult
    unfolding edit_category
    edit_title f u = do
      r ← call (s.store.set_feed_user_title user_id feed_id (s.strings.trim_space input.title))
      edit_category f u r

    url_edited : Feed → Done → Op s EditFeedResult
    unfolding edit_title
    url_edited f (err e) = pure (report false false (some e))
    url_edited f (ok _) = edit_title f true

    edit_url : Feed → Text → Done → Op s EditFeedResult
    unfolding url_edited
    edit_url f url (err e) = pure (report false false (some e))
    edit_url f url (ok _) =
        if is_empty url || text_eq url f.feed_url then edit_title f false else do
          now ← clock_now s.clk
          r ← call (s.store.set_feed_url user_id feed_id url now)
          url_edited f r

    -- The URL of the input, normalised unless it is blank.
    new_url : Text
    new_url =
        let t = s.strings.trim_space input.url in
        if is_empty t then t else normalize_feed_url s.urls s.strings t

    edit_loaded : Result Feed → Op s EditFeedResult
    unfolding edit_url new_url
    edit_loaded (err e) = pure (report false false (some e))
    edit_loaded (ok f) =
        if not (is_empty (s.strings.trim_space input.url)) && is_empty (http_url s.urls new_url)
        then pure (report false false (some (invalid (codes "invalid feed URL"))))
        else do r ← ensure_category_owned s user_id input.category_id; edit_url f new_url r

    -- `EditFeed`
    unfoldable pub edit_feed : Op s EditFeedResult
    unfolding edit_loaded
    edit_feed = do r ← call (s.store.get_feed user_id feed_id); edit_loaded r
