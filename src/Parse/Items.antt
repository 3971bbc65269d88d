-- ===== src/Parse/Items.antt =====
-- `Parse`: what the store gets of each item that gofeed finds.
pub mod Identity
pub mod Interval
use bfeed.Base.{
  ℕ, suc, if◌then◌else◌, Bool, true, false, ◌&&◌, Option, none, some, List, [], ◌∷◌, ◌++◌,
}
use bfeed.Base.Int.{ℤ, pos}
use bfeed.Base.Text.{Text, codes, is_empty}
use bfeed.Core.Types.{Time, Error, Result, ok, err}
use bfeed.Core.Text.{TextLib, plain_text}
use bfeed.Core.Ports.{ParsedFeed, ParsedEntry}
use bfeed.Parse.Fields.{join_fields, entry_hash}
use bfeed.Parse.Links.{UrlLib, resolve, comments_url}
use bfeed.Parse.Decode.{CharsetLib, decode_reader}
use bfeed.Parse.Ttl.{TtlLib, feed_ttl}

-- What is read of `gofeed.Item`; `comments` is `it.Custom[commentsCustomKey]`.
pub record Item : Type 0 where
  pub guid : Text
  pub link : Text
  pub title : Text
  pub content : Text
  pub description : Text
  pub author : Option Text
  pub published : Option Time
  pub updated : Option Time
  pub comments : Text

-- What is read of `gofeed.Feed`; `sy` is `f.Extensions["sy"]`.
pub record GoFeed : Type 0 where
  pub feed_type : Text
  pub title : Text
  pub description : Text
  pub link : Text
  pub sy : Option (Text → List Text)
  pub items : List Item

-- The parser's libraries: gofeed, `hashStr`, `strconv.Itoa`, and those of the other modules.
pub record ParseLib (U : Type 0) : Type 0 where
  pub gofeed : Text → Result GoFeed
  pub hash : Text → Text
  pub itoa : ℕ → Text
  pub url : UrlLib U
  pub charset : CharsetLib
  pub ttl : TtlLib
  pub text : TextLib

module _ {U : Type 0} (lib : ParseLib U) where
  -- `parts`
  unfoldable pub key_parts : Text → Text → ℕ → List Text
  key_parts link title i =
      if is_empty link && is_empty title then link ∷ title ∷ lib.itoa i ∷ [] else link ∷ title ∷ []

  unfoldable pub item_guid : Text → ℕ → Item → Text
  unfolding key_parts
  item_guid link i it =
      if is_empty it.guid
      then lib.hash (join_fields lib.itoa (key_parts link it.title i))
      else it.guid

  -- The zero time where there is no date.
  unfoldable pub item_time : Item → Time
  item_time it = elim it.published [
    | some t ↦ t
    | none ↦ elim it.updated [ some t ↦ t | none ↦ pos 0 ]
  ]

  unfoldable pub author_name : Option Text → Text
  author_name none = []
  author_name (some name) = plain_text lib.text name

  unfoldable pub parse_item : Option U → ℕ → Item → ParsedEntry
  unfolding item_guid item_time author_name
  parse_item base i it =
      let link = resolve lib.url base it.link in
      let title = plain_text lib.text it.title in
      record {
        guid = item_guid link i it;
        url = link;
        title = title;
        author = author_name it.author;
        content = it.content;
        summary = it.description;
        comments_url = comments_url lib.url lib.ttl.trim base it.comments;
        published_at = item_time it;
        hash = entry_hash lib.itoa lib.hash title it.content it.description;
      }

  -- The loop over the items from index `i` on.
  unfoldable pub parse_items : Option U → ℕ → List Item → List ParsedEntry
  unfolding parse_item
  parse_items base i [] = []
  parse_items base i (it ∷ its) = parse_item base i it ∷ parse_items base (suc i) its

  unfoldable pub parsed_feed : Option U → Text → GoFeed → ParsedFeed
  unfolding parse_items
  parsed_feed base bytes f = record {
    title = plain_text lib.text f.title;
    description = plain_text lib.text f.description;
    site_url = resolve lib.url base f.link;
    ttl = feed_ttl lib.ttl f.feed_type f.sy bytes;
    entries = parse_items base 0 f.items;
  }

  -- `Parse`
  unfoldable pub parse : Text → Text → Text → Result ParsedFeed
  unfolding parsed_feed
  parse bytes content_type feed_url =
      elim (lib.gofeed (decode_reader lib.charset bytes content_type)) [
        | err e ↦ err (record e { message = codes "gofeed parse: " ++ e.message })
        | ok f ↦ ok (parsed_feed (lib.url.parse feed_url) bytes f)
      ]
