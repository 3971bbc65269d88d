-- ===== src/Core/Urls.antt =====
-- The URL helpers of internal/core/feed.go and `isHTML` of internal/core/scrape.go.
use bfeed.Base.{if◌then◌else◌, Bool, not, ◌&&◌, ◌||◌, none, some, []}
use bfeed.Base.Text.{Text, text_eq, is_empty, codes}
use bfeed.Core.Ports.{FetchResponse, Strings, Urls}

-- `orURL`
abbrev pub or_url : Text → Text → Text
or_url final fallback = if is_empty final then fallback else final

-- `canonicalURL`
abbrev pub canonical_url : Text → FetchResponse → Text
canonical_url current resp =
    if resp.permanent_redirect && not (is_empty resp.final_url) then resp.final_url else current

module _ (str : Strings) where
  -- `orKeep`
  abbrev pub or_keep : Text → Text → Text
  or_keep new old = if is_empty (str.trim_space new) then old else new

  -- `feedTitle`
  abbrev pub feed_title : Text → Text → Text
  feed_title title feed_url = let t = str.trim_space title in if is_empty t then feed_url else t

  -- `isHTML`
  unfoldable pub is_html : Text → Bool
  is_html content_type =
      let ct = str.to_lower content_type in
      str.contains ct (codes "text/html") || str.contains ct (codes "application/xhtml")

module _ {U : Type 0} (urls : Urls U) where
  abbrev is_http_scheme : U → Bool
  is_http_scheme u =
      text_eq (urls.scheme u) (codes "http") || text_eq (urls.scheme u) (codes "https")

  -- `httpURL`
  unfoldable pub http_url : Text → Text
  http_url raw = if is_empty raw then [] else elim (urls.parse raw) [
    | none ↦ []
    | some u ↦ if not (is_http_scheme u) || is_empty (urls.host u) then [] else raw
  ]

  drop_default_port : U → U
  drop_default_port u =
      if text_eq (urls.scheme u) (codes "http") && text_eq (urls.port u) (codes "80")
        || text_eq (urls.scheme u) (codes "https") && text_eq (urls.port u) (codes "443")
      then urls.with_host (urls.hostname u) u
      else u

  -- `normalizeFeedURL`
  unfoldable pub normalize_feed_url : Strings → Text → Text
  unfolding drop_default_port
  normalize_feed_url str raw =
      let t = str.trim_space raw in
      elim (urls.parse t) [
        | none ↦ t
        | some u ↦
            let u' = urls.with_scheme (str.to_lower (urls.scheme u)) u in
            let u'' = urls.with_host (str.to_lower (urls.host u')) u' in
            urls.to_text (urls.without_fragment (drop_default_port u''))
      ]
