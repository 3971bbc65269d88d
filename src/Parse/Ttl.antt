-- ===== src/Parse/Ttl.antt =====
-- `feedTTL`, `rssTTLMinutes` and `syInterval`: how long the publisher asks to wait.
use bfeed.Base.{◌*◌, if◌then◌else◌, ◌&&◌, ◌||◌, Option, none, some, List, [], ◌∷◌}
use bfeed.Base.Int.{ℤ, pos, ltb_ℤ, leb_ℤ, pos_part, quot_ℤ, wrap64}
use bfeed.Base.Text.{Text, text_eq, codes, is_empty}
use bfeed.Core.Types.{Duration, minute, hour}

-- The tokens of `xml.Decoder` up to its first error. A start element has its local name, its
-- namespace, and what `DecodeElement` reads from there, if it can.
pub data XmlToken : Type 0 where
  start : Text → Text → Option Text → XmlToken
  other : XmlToken

-- `xml.NewDecoder`, `strconv.Atoi`, `strings.TrimSpace` and `strings.ToLower`.
pub record TtlLib : Type 0 where
  pub tokens : Text → List XmlToken
  pub atoi : Text → Option ℤ
  pub trim : Text → Text
  pub lower : Text → Text

-- The number where it is positive, else what is given.
abbrev pub positive_or : ℤ → Option ℤ → ℤ
positive_or d none = d
positive_or d (some n) = if leb_ℤ n (pos 0) then d else n

module _ (lib : TtlLib) where
  abbrev pub ttl_value : Option Text → ℤ
  ttl_value none = pos 0
  ttl_value (some v) = positive_or (pos 0) (lib.atoi (lib.trim v))

  unfoldable pub scan_ttl : List XmlToken → ℤ
  scan_ttl [] = pos 0
  scan_ttl (other ∷ ts) = scan_ttl ts
  scan_ttl (start local space v ∷ ts) =
      let rest = scan_ttl ts in
      if text_eq local (codes "item") || text_eq local (codes "entry")
      then pos 0
      else if text_eq local (codes "ttl")
      then if is_empty space then ttl_value v else rest
      else rest

  -- `rssTTLMinutes`
  unfoldable pub rss_ttl_minutes : Text → ℤ
  unfolding scan_ttl
  rss_ttl_minutes bytes = scan_ttl (lib.tokens bytes)

  -- The units of sy:updatePeriod.
  unfoldable pub period_of : Text → Duration
  period_of p =
      if text_eq p (codes "hourly")
      then pos hour
      else if text_eq p (codes "daily")
      then pos (24 * hour)
      else if text_eq p (codes "weekly")
      then pos (7 * 24 * hour)
      else if text_eq p (codes "monthly")
      then pos (30 * 24 * hour)
      else if text_eq p (codes "yearly")
      then pos (365 * 24 * hour)
      else pos 0

  -- `extValue`, of the values under each name of the extension.
  abbrev pub ext_value : (Text → List Text) → Text → Text
  ext_value m key = elim (m key) [ [] ↦ [] | v ∷ vs ↦ v ]

  abbrev pub frequency : Text → ℤ
  frequency fs = if is_empty fs then pos 1 else positive_or (pos 1) (lib.atoi (lib.trim fs))

  -- `syInterval`
  unfoldable pub sy_interval : Option (Text → List Text) → Duration
  unfolding period_of
  sy_interval none = pos 0
  sy_interval (some sy) =
      let period = ext_value sy (codes "updatePeriod") in
      if is_empty period
      then pos 0
      else quot_ℤ (period_of (lib.lower (lib.trim period)))
          (pos_part (frequency (ext_value sy (codes "updateFrequency"))))

  unfoldable pub rss_ttl : Text → Text → Duration
  unfolding rss_ttl_minutes wrap64
  rss_ttl feed_type bytes =
      let m = rss_ttl_minutes bytes in
      if text_eq feed_type (codes "rss") && ltb_ℤ (pos 0) m
      then wrap64 (pos (pos_part m * minute))
      else pos 0

  -- `feedTTL`
  unfoldable pub feed_ttl : Text → Option (Text → List Text) → Text → Duration
  unfolding rss_ttl sy_interval
  feed_ttl feed_type sy bytes =
      let ttl = rss_ttl feed_type bytes in let s = sy_interval sy in if ltb_ℤ ttl s then s else ttl
