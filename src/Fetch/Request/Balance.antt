-- ===== src/Fetch/Request/Balance.antt =====
-- Tokens and bodies are given back on every path, and no body is cut off.
use bfeed.Base.{
  ℕ, zero, suc, ◌≤◌, ◌<◌, ◌≡◌, refl, ap, ◌∙◌, true, false, ◌==◌, leb, ltb, Option, none, some, [],
  ◌∷◌, length, take, ◌⊎◌, inl, inr, Bool-cases, Option-cases, arith,
}
use bfeed.Base.Text.{Text}
use bfeed.Core.Types.{Error, Result, ok, err}
use bfeed.Core.Ports.{FetchRequest, FetchResponse}
use bfeed.Fetch.Host.{host_key}
use bfeed.Fetch.Redirect.{RedirectTracker, fresh, check_redirects}
use bfeed.Fetch.Request.{
  HttpResponse, acquired, released, opened, closed, Client, Net, note, request_headers,
  done_request, http_do, response, read_body, received, after_do, send, acquire, granted,
  with_token, and_release, fetch,
}

-- The response is that of the server, with no body or with all of it.
pub record IsWhole (most : ℕ) (r : HttpResponse) (out : FetchResponse) : Type 0 where
  pub status : out.status ≡ r.status
  pub body :
      (out.body ≡ [])
      ⊎ ((r.status ≡ 200) × ((r.breaks ≡ none) × ((out.body ≡ r.bytes) × (length out.body ≤ most))))

abbrev pub Answers : ℕ → HttpResponse → Result FetchResponse → Type 0
Answers most r (err e) = Unit
Answers most r (ok out) = IsWhole most r out

take_long : (n : ℕ) (xs : Text) → n < length xs → n < length (take (suc n) xs)
take_long n [] h = absurd (omega (arith, h))
take_long zero (x ∷ xs) h = omega arith
take_long (suc n) (x ∷ xs) h = omega (arith, take_long n xs (omega (arith, h)))

take_short : (n : ℕ) (xs : Text) → length xs ≤ n → take (suc n) xs ≡ xs
take_short n [] h = refl
take_short zero (x ∷ xs) h = absurd (omega (arith, h))
take_short (suc n) (x ∷ xs) h = ap (λ ys. x ∷ ys) (take_short n xs (omega (arith, h)))

module _ {U W : Type 0} (net : Net U W) where
  read_body-Answers :
      (most : ℕ) (r : HttpResponse) (out : FetchResponse)
      → out.status ≡ r.status
      → r.status ≡ 200
      → Answers most r (read_body net most r out)
  unfolding read_body
  read_body-Answers most r out e h = elim (Bool-cases (leb (length r.bytes) most)) [
    | inl l ↦ elim (Option-cases r.breaks) [
      | inr (x, b) ↦ rw (b, l, read_body) tt
      | inl b ↦
          let short : length r.bytes ≤ most = ground (arith, l) in
          let fits : ltb most (length r.bytes) ≡ false = ground (arith, l) in
          rw (b, take_short most r.bytes short, fits, read_body)
            (record { status = e; body = inr (h, (refl, (refl, short))) })
    ]
    | inr l ↦
        let long : ltb most (length (take (suc most) r.bytes)) ≡ true =
          ground (arith, l, take_long most r.bytes (ground (arith, l))) in
        elim (Option-cases r.breaks) [
          | inl b ↦ rw (b, long, read_body) tt
          | inr (x, b) ↦ rw (b, l, long, read_body) tt
        ]
  ]

  received-Answers :
      (rt : RedirectTracker) (r : HttpResponse) (e : W)
      → Answers net.max_bytes r (received net rt r e)
  unfolding received response
  received-Answers rt r e = elim (Bool-cases (r.status == 304)) [
    | inl h ↦ rw (h, received) (record { status = refl; body = inl refl })
    | inr h ↦ elim (Bool-cases (r.status == 200)) [
      | inl k ↦
          rw (h, k, received)
            (read_body-Answers net.max_bytes r (response net rt r e) refl (ground (arith, k)))
      | inr k ↦ rw (h, k, received) (record { status = refl; body = inl refl })
    ]
  ]

  -- The response is that of some run of the request.
  abbrev pub Fetched : FetchRequest → Result FetchResponse → Type 0
  Fetched req (err e) = Unit
  Fetched req (ok out) =
      (w : W) × ((r : HttpResponse) × (((net.follow req.url (request_headers net req) w).0.1 ≡ ok r)
          × IsWhole net.max_bytes r out))

  Answers-Fetched :
      (req : FetchRequest) (w : W) (r : HttpResponse) (a : Result FetchResponse)
      → (net.follow req.url (request_headers net req) w).0.1 ≡ ok r
      → Answers net.max_bytes r a
      → Fetched req a
  Answers-Fetched req w r (err e) h x = tt
  Answers-Fetched req w r (ok out) h x = (w, (r, (h, x)))

  -- What a request did since the token was taken.
  abbrev pub Sent : FetchRequest → Client W → Result FetchResponse × Client W → Type 0
  Sent req c (a, d) =
      ((d.events ≡ c.events) ⊎ (d.events ≡ closed ∷ opened ∷ c.events)) × Fetched req a

  done-Sent :
      (req : FetchRequest) (c : Client W) (o : Option RedirectTracker) (r : Result HttpResponse)
      → (net.follow req.url (request_headers net req) c.env).0.1 ≡ r
      → (e : W) → Sent req c (after_do net (done_request net o r (record c { env = e })))
  unfolding after_do
  done-Sent req c none r h e = (inl refl, tt)
  done-Sent req c (some rt) (err x) h e = (inl refl, tt)
  done-Sent req c (some rt) (ok r) h e =
      (inr refl, Answers-Fetched req c.env r (received net rt r e) h (received-Answers rt r e))

  send-Sent : (req : FetchRequest) (c : Client W) → Sent req c (send net req c)
  unfolding send http_do
  send-Sent req c = elim (Option-cases (net.new_request req.url)) [
    | inr (e, h) ↦ rw (h, send) (inl refl, tt)
    | inl h ↦
        rw (h, send)
          (done-Sent req c
            (check_redirects 5 fresh (net.follow req.url (request_headers net req) c.env).0.0)
            (net.follow req.url (request_headers net req) c.env).0.1 refl
            (net.follow req.url (request_headers net req) c.env).1)
  ]

  -- Nothing, a token, or a token and within it a body: each is given back.
  unfoldable pub IsBalanced : Client W → Client W → Type 0
  IsBalanced c d =
      (d.events ≡ c.events)
      ⊎ ((key : Text) × ((d.events ≡ released key ∷ acquired key ∷ c.events)
            ⊎ (d.events ≡ released key ∷ closed ∷ opened ∷ acquired key ∷ c.events)))

  released_after :
      (req : FetchRequest) (key : Text) (c d : Client W) (p : Result FetchResponse × Client W)
      → d.events ≡ acquired key ∷ c.events
      → Sent req d p
      → IsBalanced c (and_release net key p).1 × Fetched req (and_release net key p).0
  unfolding IsBalanced
  released_after req key c d (a, x) h (inl e, f) =
      (inr (key, inl (ap (λ t. released key ∷ t) (e ∙ h))), f)
  released_after req key c d (a, x) h (inr e, f) =
      (inr (key, inr (ap (λ t. released key ∷ t) (e ∙ ap (λ t. closed ∷ opened ∷ t) h))), f)

  fetch_granted :
      (req : FetchRequest) (key : Text) (c : Client W) (o : Option Error) (e : W)
      → IsBalanced c
          (with_token net
            (λ d. and_release net key (send net req d))
            (granted net key o (record c { env = e }))).1
        × Fetched req
            (with_token net
              (λ d. and_release net key (send net req d))
              (granted net key o (record c { env = e }))).0
  unfolding IsBalanced
  fetch_granted req key c (some x) e = (inl refl, tt)
  fetch_granted req key c none e =
      let d = note net (acquired key) (record c { env = e }) in
      released_after req key c d (send net req d) refl (send-Sent req d)

  -- Whatever the network does: `Fetch` gives back the token that it took and closes the body that it
  -- opened, the token last, on every path. A response that it returns has the status of the server's
  -- answer, and no body or all of it, read to its end and within the cap.
  pub fetch-IsBalanced :
      (req : FetchRequest) (c : Client W)
      → IsBalanced c (fetch net req c).1 × Fetched req (fetch net req c).0
  unfolding fetch acquire IsBalanced
  fetch-IsBalanced req c = elim (Option-cases (net.urls.parse req.url)) [
    | inl h ↦ rw (h, fetch) (inl refl, tt)
    | inr (u, h) ↦
        let key = host_key net.urls net.strings net.join_host_port u in
        rw (h, fetch) (fetch_granted req key c (net.select key c.env).0 (net.select key c.env).1)
  ]
