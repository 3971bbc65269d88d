-- ===== src/Tests/Fetch.antt =====
-- The examples for the fetcher.
use bfeed.Base.{
  ℕ, ◌*◌, ◌≡◌, refl, ltb, ◌==◌, if◌then◌else◌, true, false, ◌&&◌, ◌||◌, Option, none, some, List,
  [], ◌∷◌, length,
}
use mathlib.Core.Option
use bfeed.Base.Int.{ℤ, pos, ◌≤ℤ◌}
use bfeed.Base.Text.{Text, codes}
use bfeed.Fetch.RetryAfter.{parse_retry_after, max_retry_after, parse_retry_after_bounds}
use bfeed.Fetch.Redirect.{
  Redirect, permanent_redirect, check_redirects, all_permanent, fresh, check_redirects_lem,
}
use bfeed.Fetch.Guard.{
  Netip, allowed, guard_dial, in_any, target, IsReachable, guard_dial-IsReachable,
}
use bfeed.Core.Ports.{Urls}
use bfeed.Tests.Service.{no_urls}

abbrev tens : Text → Option ℤ
tens v = some (pos (10 * length v))

abbrev no_date : Text → Option ℤ
no_date v = none

parse_retry_after_bounds_example :
    (pos 0 ≤ℤ parse_retry_after tens no_date (pos 0) (codes "12"))
    × (parse_retry_after tens no_date (pos 0) (codes "12") ≤ℤ max_retry_after)
parse_retry_after_bounds_example = parse_retry_after_bounds tens no_date (pos 0) (codes "12")

abbrev chain : List Redirect
chain = record { via = 1; status = some 301 } ∷ record { via = 2; status = some 302 } ∷ []

check_redirects_example : Option.map permanent_redirect (check_redirects 5 fresh chain) ≡ (
    if length chain == 0 || ltb (length chain) 5
    then some (ltb 0 (length chain) && all_permanent chain)
    else none)
check_redirects_example = check_redirects_lem 5 chain (refl, (refl, tt))

-- Two URLs of one host, the first without a port, the second with port 80.
abbrev web_urls : Urls ℕ
web_urls = record no_urls {
  scheme = λ u. codes "http";
  hostname = λ u. codes "a.org";
  port = λ u. if u == 0 then [] else codes "80";
}

-- Addresses by number, of which those below 10 are private.
abbrev numbers : Netip ℕ ℕ
numbers = record {
  split_host = λ t. some t;
  parse_addr = λ t. some (length t);
  must_parse_prefix = λ t. 1000;
  contains = λ p a. p == a;
  unmap = λ a. a;
  is_valid = λ a. true;
  is_loopback = λ a. false;
  is_unspecified = λ a. false;
  is_private = λ a. ltb a 10;
  is_link_local_unicast = λ a. false;
  is_link_local_multicast = λ a. false;
  is_multicast = λ a. false;
  is_interface_local_multicast = λ a. false;
}

dials : guard_dial numbers (3 ∷ []) (codes "abc") ≡ allowed
unfolding guard_dial in_any
dials = refl

guard_dial_example :
    (a : ℕ) × (target numbers (codes "abc") ≡ some a) × IsReachable numbers (3 ∷ []) a
guard_dial_example = guard_dial-IsReachable numbers (3 ∷ []) (codes "abc") (λ a. refl) dials
