-- ===== src/Fetch/Request.antt =====
-- `Fetch` and `FetchStream` on one request, with the token of the host and the body of the response.
pub mod Balance
pub mod Streams
use bfeed.Base.{
  ℕ, suc, if◌then◌else◌, Bool, true, false, not, ◌&&◌, ◌==◌, leb, ltb, Option, none, some, List, [],
  ◌∷◌, ◌++◌, length, take,
}
use bfeed.Base.Int.{ℤ}
use bfeed.Base.Text.{Text, codes, is_empty}
use bfeed.Core.Types.{Error, Result, ok, err, Time}
use bfeed.Core.Ports.{Urls, Strings, FetchRequest, FetchResponse}
use bfeed.Fetch.Host.{host_key}
use bfeed.Fetch.Redirect.{RedirectTracker, fresh, Redirect, check_redirects, permanent_redirect}
use bfeed.Fetch.RetryAfter.{parse_retry_after}

-- `http.Response`: the body yields its bytes, and then its end or an error.
pub record HttpResponse : Type 0 where
  pub status : ℕ
  pub content_type : Text
  pub etag : Text
  pub last_modified : Text
  pub retry_after : Text
  pub final_url : Text
  pub content_length : ℤ
  pub bytes : Text
  pub breaks : Option Error

-- What a request does with the client's tokens and with bodies.
pub data Event : Type 0 where
  acquired released : Text → Event
  opened closed : Event

-- `FetchStreamResponse` with its `releaseReadCloser`; `is_closed` is its `sync.Once`.
pub record Stream : Type 0 where
  pub status : ℕ
  pub content_type : Text
  pub content_length : ℤ
  pub body : Text
  pub key : Text
  pub is_closed : Bool

-- The environment and the events, the newest first.
pub record Client (W : Type 0) : Type 0 where
  pub env : W
  pub events : List Event

-- `Config`, and what is used of elsewhere. `select` is the choice of `acquire`: a token, or the error of
-- the context. `follow` is `http.Client.Do` without its `CheckRedirect`: the redirects it meets, and then a
-- response or an error.
pub record Net (U W : Type 0) : Type 0 where
  pub user_agent : Text
  pub max_bytes : ℕ
  pub urls : Urls U
  pub strings : Strings
  pub join_host_port : Text → Text → Text
  pub parse_error : Text → Error
  pub select : Text → W → Option Error × W
  pub new_request : Text → Option Error
  pub follow : Text → List (Text × Text) → W → (List Redirect × Result HttpResponse) × W
  pub too_many_redirects : Error
  pub atoi : Text → Option ℤ
  pub parse_time : Text → Option Time
  pub now : W → Time

abbrev pub prefixed : Text → Error → Error
prefixed p e = record e { message = p ++ e.message }

module _ {U W : Type 0} (net : Net U W) where
  abbrev pub note : Event → Client W → Client W
  note ev c = record c { events = ev ∷ c.events }

  abbrev pub header : Text → Text → List (Text × Text)
  header name value = if is_empty value then [] else (name, value) ∷ []

  -- The headers that `Fetch` sets.
  unfoldable pub request_headers : FetchRequest → List (Text × Text)
  request_headers req =
      (codes "User-Agent", net.user_agent)
      ∷ (header (codes "If-None-Match") req.etag
          ++ header (codes "If-Modified-Since") req.last_modified)

  -- `c.http.Do`, with `checkRedirect 5` on the way. A body is open where it succeeds.
  abbrev pub done_request :
      Option RedirectTracker
      → Result HttpResponse
      → Client W
      → Result (RedirectTracker × HttpResponse) × Client W
  done_request none r c = (err net.too_many_redirects, c)
  done_request (some rt) (err e) c = (err e, c)
  done_request (some rt) (ok resp) c = (ok (rt, resp), note opened c)

  unfoldable pub http_do :
      Text → List (Text × Text) → Client W → Result (RedirectTracker × HttpResponse) × Client W
  http_do url hs c =
      let ((chain, r), e) = net.follow url hs c.env in
      done_request (check_redirects 5 fresh chain) r (record c { env = e })

  -- `out`
  unfoldable pub response : RedirectTracker → HttpResponse → W → FetchResponse
  response rt r e = record {
    status = r.status;
    not_modified = false;
    body = [];
    content_type = r.content_type;
    etag = r.etag;
    last_modified = r.last_modified;
    retry_after = parse_retry_after net.atoi net.parse_time (net.now e) r.retry_after;
    final_url = r.final_url;
    permanent_redirect = permanent_redirect rt;
  }

  abbrev pub within_cap : ℕ → Text → FetchResponse → Result FetchResponse
  within_cap cap body out =
      if ltb cap (length body)
      then err (record {
        chain = [];
        message = codes "response body exceeds " ++ (net.strings.decimal cap ++ codes " bytes");
      })
      else ok (record out { body = body })

  -- `io.ReadAll` of at most one byte more than the cap.
  unfoldable pub read_body : ℕ → HttpResponse → FetchResponse → Result FetchResponse
  read_body cap r out =
      let whole = within_cap cap (take (suc cap) r.bytes) out in
      elim r.breaks [
        | none ↦ whole
        | some e ↦
            if leb (length r.bytes) cap then err (prefixed (codes "read body: ") e) else whole
      ]

  unfoldable pub received : RedirectTracker → HttpResponse → W → Result FetchResponse
  unfolding response read_body
  received rt r e =
      if r.status == 304
      then ok (record (response rt r e) { not_modified = true })
      else if r.status == 200
      then read_body net.max_bytes r (response rt r e)
      else ok (response rt r e)

  -- From the answer on; the body is closed on return.
  unfoldable pub after_do :
      Result (RedirectTracker × HttpResponse) × Client W → Result FetchResponse × Client W
  unfolding received
  after_do (err e, c) = (err (prefixed (codes "http get: ") e), c)
  after_do (ok (rt, r), c) = (received rt r c.env, note closed c)

  unfoldable pub send : FetchRequest → Client W → Result FetchResponse × Client W
  unfolding after_do http_do request_headers
  send req c = elim (net.new_request req.url) [
    | some e ↦ (err e, c)
    | none ↦ after_do (http_do req.url (request_headers req) c)
  ]

  abbrev pub and_release : {A : Type 0} → Text → A × Client W → A × Client W
  and_release key (a, c) = (a, note (released key) c)

  -- `acquire` as one request sees it.
  abbrev pub granted : Text → Option Error → Client W → Option Error × Client W
  granted key (some e) c = (some e, c)
  granted key none c = (none, note (acquired key) c)

  unfoldable pub acquire : Text → Client W → Option Error × Client W
  acquire key c = let (o, e) = net.select key c.env in granted key o (record c { env = e })

  abbrev pub with_token :
      {A : Type 0}
      → (Client W → Result A × Client W)
      → Option Error × Client W
      → Result A × Client W
  with_token f (some e, c) = (err e, c)
  with_token f (none, c) = f c

  -- `Fetch`
  unfoldable pub fetch : FetchRequest → Client W → Result FetchResponse × Client W
  unfolding send acquire
  fetch req c = elim (net.urls.parse req.url) [
    | none ↦ (err (prefixed (codes "bad url: ") (net.parse_error req.url)), c)
    | some u ↦
        let key = host_key net.urls net.strings net.join_host_port u in
        with_token (λ d. and_release key (send req d)) (acquire key c)
  ]

  -- From the answer on, for a body that the caller closes.
  abbrev pub stream_of :
      Text → Result (RedirectTracker × HttpResponse) × Client W → Result Stream × Client W
  stream_of key (err e, c) = and_release key (err (prefixed (codes "http get: ") e), c)
  stream_of key (ok (rt, r), c) = (
    ok (record {
      status = r.status;
      content_type = r.content_type;
      content_length = r.content_length;
      body = r.bytes;
      key = key;
      is_closed = false;
    }),
    c,
  )

  unfoldable pub open_stream : Text → FetchRequest → Client W → Result Stream × Client W
  unfolding http_do
  open_stream key req c = elim (net.new_request req.url) [
    | some e ↦ and_release key (err e, c)
    | none ↦ stream_of key (http_do req.url ((codes "User-Agent", net.user_agent) ∷ []) c)
  ]

  -- `FetchStream`
  unfoldable pub fetch_stream : FetchRequest → Client W → Result Stream × Client W
  unfolding open_stream acquire
  fetch_stream req c = elim (net.urls.parse req.url) [
    | none ↦ (err (prefixed (codes "bad url: ") (net.parse_error req.url)), c)
    | some u ↦
        let key = host_key net.urls net.strings net.join_host_port u in
        with_token (open_stream key req) (acquire key c)
  ]

  -- `releaseReadCloser.Close`
  unfoldable pub close : Stream → Client W → Stream × Client W
  close s c =
      if s.is_closed
      then (s, c)
      else (record s { is_closed = true }, note (released s.key) (note closed c))
