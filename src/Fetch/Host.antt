-- ===== src/Fetch/Host.antt =====
-- `hostKey`: the key of a host's semaphore.
use bfeed.Base.{if◌then◌else◌, Bool, true, ◌&&◌, ◌||◌, ◌≡◌, refl, ◌⊎◌, inl, inr}
use bfeed.Base.Text.{Text, codes, text_eq, is_empty}
use bfeed.Core.Ports.{Urls, Strings}

unfoldable pub is_default_port : Text → Text → Bool
is_default_port scheme port =
    (text_eq scheme (codes "http") && text_eq port (codes "80"))
    || (text_eq scheme (codes "https") && text_eq port (codes "443"))

-- `join` is `net.JoinHostPort`.
module _ {U : Type 0} (urls : Urls U) (strings : Strings) (join : Text → Text → Text) where
  -- The URL names no port, or the default one of its scheme.
  abbrev pub has_default_port : U → Bool
  has_default_port u = is_empty (urls.port u) || is_default_port (urls.scheme u) (urls.port u)

  -- `hostKey`
  unfoldable pub host_key : U → Text
  host_key u =
      let host = strings.to_lower (urls.hostname u) in
      if has_default_port u then host else join host (urls.port u)

  abbrev pub SameHost : U → U → Type 0
  SameHost u v = strings.to_lower (urls.hostname u) ≡ strings.to_lower (urls.hostname v)

  -- Two URLs whose hosts differ in case only share a budget, if they name the same port, or each no
  -- port or its scheme's default one.
  pub host_key-shared :
      (u v : U)
      → SameHost u v
      → ((has_default_port u ≡ true) × (has_default_port v ≡ true))
        ⊎ ((urls.port u ≡ urls.port v) × (urls.scheme u ≡ urls.scheme v))
      → host_key u ≡ host_key v
  unfolding host_key
  host_key-shared u v h (inl (p, q)) = rw (h, p, q) refl
  host_key-shared u v h (inr (p, q)) = rw (h, p, q) refl
