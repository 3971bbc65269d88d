-- ===== src/Fetch/Request/Streams.antt =====
-- A stream gives its token back once, however often it is closed.
use bfeed.Base.{
  ℕ, zero, suc, ◌≡◌, refl, ap, ◌∙◌, true, false, Option, none, some, [], ◌∷◌, inl, inr,
  Option-cases,
}
use bfeed.Base.Text.{Text, codes}
use bfeed.Core.Types.{Error, Result, ok, err}
use bfeed.Core.Ports.{FetchRequest}
use bfeed.Fetch.Host.{host_key}
use bfeed.Fetch.Redirect.{RedirectTracker, fresh, check_redirects}
use bfeed.Fetch.Request.{
  HttpResponse, acquired, released, opened, closed, Client, Net, note, done_request, http_do,
  acquire, granted, with_token, Stream, stream_of, open_stream, fetch_stream, close,
}
use bfeed.Fetch.Request.Balance.{IsBalanced}

module _ {U W : Type 0} (net : Net U W) where
  -- `Close`, called that many times.
  abbrev pub closes : ℕ → Stream → Client W → Client W
  closes zero s c = c
  closes (suc n) s c = closes n (close net s c).0 (close net s c).1

  abbrev pub after_close : ℕ → Result Stream × Client W → Client W
  after_close n (err e, c) = c
  after_close n (ok s, c) = closes n s c

  closes_closed : (n : ℕ) (s : Stream) (c : Client W) → s.is_closed ≡ true → closes n s c ≡ c
  unfolding close
  closes_closed zero s c h = refl
  closes_closed (suc n) s c h = rw h (closes_closed n (record s { is_closed = true }) c refl)

  closes_once :
      (n : ℕ) (s : Stream) (c : Client W)
      → s.is_closed ≡ false
      → closes (suc n) s c ≡ note net (released s.key) (note net closed c)
  unfolding close
  closes_once n s c h = rw h (closes_closed n (record s { is_closed = true }) _ refl)

  -- The client once the stream, if there is one, is closed.
  Held : Text → Client W → Result Stream × Client W → Type 0
  Held key c (err e, d) = d.events ≡ released key ∷ c.events
  Held key c (ok s, d) = ((d.events ≡ opened ∷ c.events) × (s.key ≡ key)) × (s.is_closed ≡ false)

  done-Held :
      (key : Text) (c : Client W) (o : Option RedirectTracker) (r : Result HttpResponse) (e : W)
      → Held key c (stream_of net key (done_request net o r (record c { env = e })))
  unfolding Held
  done-Held key c none r e = refl
  done-Held key c (some rt) (err x) e = refl
  done-Held key c (some rt) (ok r) e = ((refl, refl), refl)

  open_stream-Held :
      (key : Text) (req : FetchRequest) (c : Client W) → Held key c (open_stream net key req c)
  unfolding open_stream http_do Held
  open_stream-Held key req c = elim (Option-cases (net.new_request req.url)) [
    | inr (e, h) ↦ rw (h, open_stream) refl
    | inl h ↦
        let p = net.follow req.url ((codes "User-Agent", net.user_agent) ∷ []) c.env in
        rw (h, open_stream) (done-Held key c (check_redirects 5 fresh p.0.0) p.0.1 p.1)
  ]

  closed_after :
      (n : ℕ) (key : Text) (c d : Client W) (p : Result Stream × Client W)
      → d.events ≡ acquired key ∷ c.events
      → Held key d p
      → IsBalanced net c (after_close (suc n) p)
  unfolding Held IsBalanced
  closed_after n key c d (err e, x) h e' = inr (key, inl (e' ∙ ap (λ t. released key ∷ t) h))
  closed_after n key c d (ok s, x) h ((e', k), o) =
      rw (closes_once n s x o) (inr (key, inr (rw (e', k, h) refl)))

  stream_granted :
      (n : ℕ) (req : FetchRequest) (key : Text) (c : Client W) (o : Option Error) (e : W)
      → IsBalanced net c (
          after_close
            (suc n)
            (with_token net (open_stream net key req) (granted net key o (record c { env = e }))))
  unfolding IsBalanced
  stream_granted n req key c (some x) e = inl refl
  stream_granted n req key c none e =
      let d = note net (acquired key) (record c { env = e }) in
      closed_after n key c d (open_stream net key req d) refl (open_stream-Held key req d)

  -- Whatever the network does: if `FetchStream` fails, it has given back the token that it took, and
  -- if it returns a stream, then once that is closed, however often, the body is closed and the
  -- token is given back exactly once.
  pub fetch_stream-IsBalanced :
      (n : ℕ) (req : FetchRequest) (c : Client W)
      → IsBalanced net c (after_close (suc n) (fetch_stream net req c))
  unfolding fetch_stream acquire IsBalanced
  fetch_stream-IsBalanced n req c = elim (Option-cases (net.urls.parse req.url)) [
    | inl h ↦ rw (h, fetch_stream) (inl refl)
    | inr (u, h) ↦
        let key = host_key net.urls net.strings net.join_host_port u in
        rw (h, fetch_stream)
          (stream_granted n req key c (net.select key c.env).0 (net.select key c.env).1)
  ]
