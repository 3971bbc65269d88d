-- ===== src/Tests/Requests.antt =====
-- One request for a feed, and one for an image.
use bfeed.Base.{ℕ, suc, ◌≡◌, refl, none, some, [], ◌∷◌}
use bfeed.Base.Int.{pos}
use bfeed.Base.Text.{codes}
use bfeed.Core.Types.{ok}
use bfeed.Core.Ports.{FetchRequest}
use bfeed.Fetch.Redirect.{check_redirect, check_redirects}
use bfeed.Fetch.Request.{
  HttpResponse, Client, Net, fetch, fetch_stream, opened, closed, acquired, released,
}
use bfeed.Fetch.Request.Balance.{IsBalanced, Fetched, fetch-IsBalanced}
use bfeed.Fetch.Request.Streams.{after_close, fetch_stream-IsBalanced}
use bfeed.Fetch.Host.{host_key}
use bfeed.Tests.Service.{no_urls, plain_strings}

abbrev page : HttpResponse
page = record {
  status = 200;
  content_type = codes "text/xml";
  etag = codes "e";
  last_modified = [];
  retry_after = [];
  final_url = codes "http://a.org/feed";
  content_length = pos 4;
  bytes = codes "feed";
  breaks = none;
}

-- The server redirects once, for good, and then sends the page.
abbrev net : Net ℕ ℕ
net = record {
  user_agent = codes "bfeed";
  max_bytes = 9;
  urls = record no_urls { parse = λ s. some 0; hostname = λ u. codes "a.org" };
  strings = plain_strings;
  join_host_port = λ h p. h;
  parse_error = λ s. record { chain = []; message = codes "no host" };
  select = λ k n. (none, n);
  new_request = λ s. none;
  follow = λ url hs n. ((record { via = 1; status = some 301 } ∷ [], ok page), suc n);
  too_many_redirects = record { chain = []; message = codes "stopped after 5 redirects" };
  atoi = λ s. none;
  parse_time = λ s. none;
  now = λ n. pos n;
}

abbrev asked : FetchRequest
asked = record { url = codes "http://a.org"; etag = codes "d"; last_modified = [] }

abbrev idle_client : Client ℕ
idle_client = record { env = 0; events = [] }

fetch-IsBalanced_example :
    IsBalanced net idle_client (fetch net asked idle_client).1
    × Fetched net asked (fetch net asked idle_client).0
fetch-IsBalanced_example = fetch-IsBalanced net asked idle_client

-- The stream is closed twice.
fetch_stream-IsBalanced_example :
    IsBalanced net idle_client (after_close net 2 (fetch_stream net asked idle_client))
fetch_stream-IsBalanced_example = fetch_stream-IsBalanced net 1 asked idle_client

seen :
    (fetch net asked idle_client).1.events
    ≡ released (codes "a.org") ∷ closed ∷ opened ∷ acquired (codes "a.org") ∷ []
unfolding fetch host_key check_redirects check_redirect
seen = refl
