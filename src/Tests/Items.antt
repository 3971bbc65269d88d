-- ===== src/Tests/Items.antt =====
-- Feeds with items that have no GUID, and the intervals that feeds ask for.
use bfeed.Base.{
  ℕ, ◌*◌, ◌^◌, ◌<◌, ◌≡◌, refl, if◌then◌else◌, true, false, ◌&&◌, none, some, List, [], ◌∷◌, ◌++◌,
  length,
}
use bfeed.Base.Int.{pos, leb_ℤ, max_ℤ, pos_part, wrap64}
use bfeed.Base.Text.{Text, text_eq, codes, is_empty}
use bfeed.Core.Types.{err, minute}
use bfeed.Store.Table.{drop}
use bfeed.Parse.Links.{UrlLib, resolve}
use bfeed.Parse.Decode.{has_xml_encoding_decl, trim_prolog, before}
use bfeed.Parse.Links.{has_prefix}
use bfeed.Parse.Ttl.{TtlLib, XmlToken, feed_ttl, sy_interval, rss_ttl_minutes, rss_ttl, scan_ttl}
use bfeed.Parse.Items.{Item, GoFeed, ParseLib, parse_item, parse_items, item_guid, key_parts}
use bfeed.Parse.Items.Identity.{parse_items-prepend, parse_item-guid_inj}
use bfeed.Parse.Items.Interval.{feed_ttl_lem}
use bfeed.Tests.Parse.{unary, unary-IsDecimal}

-- Every text is a URL, and absolute.
abbrev urls : UrlLib Text
urls = record {
  parse = λ s. some s;
  is_abs = λ u. true;
  resolve_reference = λ base u. u;
  string = λ u. u;
}

-- The document is one element, <ttl>, of the given text; the only number is 153722868.
abbrev ttls : TtlLib
ttls = record {
  tokens = λ s. XmlToken.other ∷ XmlToken.start (codes "ttl") [] (some s) ∷ [];
  atoi = λ s. if text_eq s (codes "90") then some (pos 90) else some (pos 153_722_868);
  trim = λ s. s;
  lower = λ s. s;
}

abbrev parsers : ParseLib Text
parsers = record {
  gofeed = λ s. err (record { chain = []; message = [] });
  hash = λ s. s;
  itoa = unary;
  url = urls;
  charset = record { determine_encoding = λ s t. ((λ u. u), true); is_utf8 = λ s. true };
  ttl = ttls;
  text = record { replace_tags = λ s. s; unescape = λ s. s; fields = λ s. s ∷ [] };
}

abbrev item : Text → Text → Item
item link title = record {
  guid = [];
  link = link;
  title = title;
  content = codes "text";
  description = [];
  author = none;
  published = none;
  updated = none;
  comments = [];
}

abbrev news : List Item
news = item (codes "/3") (codes "c") ∷ []

abbrev old_news : List Item
old_news = item (codes "/2") (codes "b") ∷ item [] (codes "a") ∷ []

parse_items-prepend_example :
    drop (length news) (parse_items parsers none 0 (news ++ old_news))
    ≡ parse_items parsers none 0 old_news
unfolding bfeed.Parse.Items.Identity.HasIdentity resolve
parse_items-prepend_example = parse_items-prepend parsers none news old_news (refl, (refl, tt))

-- One item at two places.
parse_item-guid_inj_example :
    ((resolve urls none (codes "/1") ≡ resolve urls none (codes "/1")) × (codes "a" ≡ codes "a"))
    × ((is_empty (resolve urls none (codes "/1")) && is_empty (codes "a")) ≡ true → ◌≡◌ {A = ℕ} 0 2)
unfolding parse_item item_guid key_parts resolve
parse_item-guid_inj_example =
    parse_item-guid_inj parsers none unary-IsDecimal (λ s t e. e) 0 2
      (item (codes "/1") (codes "a")) (item (codes "/1") (codes "a")) refl refl refl

feed_ttl_example :
    ((leb_ℤ (pos 0) (feed_ttl ttls (codes "rss") none (codes "90")) ≡ true)
      × (leb_ℤ (sy_interval ttls none) (feed_ttl ttls (codes "rss") none (codes "90")) ≡ true))
    × (text_eq (codes "rss") (codes "rss") ≡ true
        → pos_part (rss_ttl_minutes ttls (codes "90")) * minute < 2 ^ 63
        → feed_ttl ttls (codes "rss") none (codes "90")
          ≡ max_ℤ
              (pos (pos_part (rss_ttl_minutes ttls (codes "90")) * minute))
              (sy_interval ttls none))
feed_ttl_example = feed_ttl_lem ttls (codes "rss") none (codes "90")

-- 153722868 minutes are more than a `time.Duration` holds, and count as none.
too_long : feed_ttl ttls (codes "rss") none (codes "x") ≡ pos 0
unfolding feed_ttl rss_ttl rss_ttl_minutes scan_ttl sy_interval wrap64 text_eq
too_long = refl

declared : has_xml_encoding_decl (codes " <?xml version='1.0' encoding='utf-8'?><rss/>") ≡ true
unfolding has_xml_encoding_decl trim_prolog before has_prefix text_eq
declared = refl

not_declared : has_xml_encoding_decl (codes "<?xml version='1.0'?><a encoding='b'/>") ≡ false
unfolding has_xml_encoding_decl trim_prolog before has_prefix text_eq
not_declared = refl
