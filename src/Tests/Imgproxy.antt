-- ===== src/Tests/Imgproxy.antt =====
-- A signed address, and an image behind it.
use bfeed.Base.{ℕ, suc, ◌-◌, ◌≡◌, refl, true, false, some, [], ◌↔◌}
use bfeed.Base.Int.{pos}
use bfeed.Base.Text.{Text, text_eq, codes}
use bfeed.Core.Types.{ok}
use bfeed.Core.Ports.{Urls}
use bfeed.Imgproxy.Signer.{SignLib, sign, verify, verify-sign}
use bfeed.Imgproxy.Handler.{
  FetchStreamResponse, StreamFetcher, Served, serve_http, Settled, Shown, serve_http-Settled,
}
use bfeed.Tests.Service.{plain_strings}

-- The text itself stands in for its HMAC.
abbrev plain : SignLib
plain = record { hmac = λ k s. s; encode = λ s. s; decode = λ s. some s; query_escape = λ s. s }

abbrev address : Text
address = codes "http://a/b"

verify-sign_example :
    (verify plain (codes "key") address (sign plain (codes "key") address) ≡ true)
    × (((sig : Text) → (verify plain (codes "key") address sig ≡ true) ↔ (some sig ≡ some address))
        × ((other : Text)
            → (verify plain (codes "key") other (sign plain (codes "key") address) ≡ true)
              ↔ (address ≡ other)))
verify-sign_example = verify-sign plain (codes "key") (λ s. refl) address

abbrev web : Urls Text
web = record {
  parse = λ s. some s;
  scheme = λ u. codes "http";
  host = λ u. u;
  port = λ u. [];
  hostname = λ u. u;
  with_scheme = λ s u. u;
  with_host = λ h u. u;
  without_fragment = λ u. u;
  to_text = λ u. u;
}

abbrev picture : FetchStreamResponse
picture = record {
  status = 200;
  content_type = codes "image/png";
  content_length = pos 3;
  bytes = codes "png";
  breaks = false;
}

-- The client counts the bodies that are open.
abbrev client : StreamFetcher ℕ
client = record { fetch_stream = λ q n. (ok picture, suc n); close = λ r n. n - 1 }

serve_http-Settled_example :
    Settled web plain_strings client plain
      (codes "key")
      (codes "http://a/b")
      (codes "http://a/b")
      0
      (serve_http web plain_strings client plain
        (codes "key")
        false
        (codes "http://a/b")
        (codes "http://a/b")
        0).1
    × Shown web plain_strings client plain
        (codes "key")
        (codes "http://a/b")
        (codes "http://a/b")
        0
        (serve_http web plain_strings client plain
          (codes "key")
          false
          (codes "http://a/b")
          (codes "http://a/b")
          0).0
serve_http-Settled_example =
    serve_http-Settled web plain_strings client plain (codes "key") (codes "http://a/b")
      (codes "http://a/b") 0 false

-- A signature of another address fetches nothing.
forged :
    serve_http web plain_strings client plain (codes "key") false (codes "http://a/b") (codes "x") 0
    ≡ (Served.refused 403 (codes "bad signature"), 0)
unfolding serve_http verify text_eq
forged = refl
