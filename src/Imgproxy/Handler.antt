-- ===== src/Imgproxy/Handler.antt =====
-- internal/imgproxy/handler.go.
use bfeed.Base.{
  ℕ, zero, suc, ◌*◌, ◌^◌, ◌≤◌, ◌≡◌, refl, sym, ap, leb, ltb, if◌then◌else◌, Bool, true, false, not,
  ◌&&◌, ◌||◌, ◌==◌, Option, none, some, List, [], ◌∷◌, ◌⊎◌, inl, inr, Bool-cases, length, take,
  arith,
}
use mathlib.Core.Path.{subst}
use bfeed.Base.Int.{ℤ, pos, ltb_ℤ, leb_ℤ, pos_part}
use bfeed.Base.Text.{Text, text_eq, codes, is_empty}
use bfeed.Core.Types.{Error, Result, ok, err}
use bfeed.Core.Ports.{Urls, Strings, FetchRequest}
use bfeed.Parse.Links.{has_prefix}
use bfeed.Imgproxy.Signer.{SignLib, verify}

abbrev pub max_image_bytes : ℕ
max_image_bytes = 10 * 2 ^ 20

-- `FetchStreamResponse`. The body yields its bytes, and then its end or an error.
pub record FetchStreamResponse : Type 0 where
  pub status : ℕ
  pub content_type : Text
  pub content_length : ℤ
  pub bytes : Text
  pub breaks : Bool

-- `StreamFetcher` on the state `S` of the client, with the `Close` of a body.
pub record StreamFetcher (S : Type 0) : Type 0 where
  pub fetch_stream : FetchRequest → S → Result FetchStreamResponse × S
  pub close : FetchStreamResponse → S → S

-- What the browser gets: an error by `http.Error`, an image, or an image whose connection is cut off.
pub data Served : Type 0 where
  refused : ℕ → Text → Served
  image : List (Text × Text) → Text → Served
  aborted : List (Text × Text) → Text → Served

module _ {U S : Type 0} (urls : Urls U) (strings : Strings) (fetcher : StreamFetcher S) where
  abbrev length_header : ℤ → List (Text × Text)
  length_header n =
      if leb_ℤ (pos 0) n then (codes "Content-Length", strings.decimal (pos_part n)) ∷ [] else []

  unfoldable pub headers : FetchStreamResponse → List (Text × Text)
  headers r =
      (codes "Content-Type", r.content_type)
      ∷ (codes "Cache-Control", codes "public, max-age=31536000, immutable")
      ∷ (codes "X-Content-Type-Options", codes "nosniff")
      ∷ (codes "Content-Security-Policy", codes "default-src 'none'; sandbox")
      ∷ length_header r.content_length

  -- `io.Copy` of at most one byte more than the cap; `cut` is whether the browser is gone.
  unfoldable pub copy : ℕ → Bool → FetchStreamResponse → Served
  unfolding headers
  copy cap cut r =
      let body = take (suc cap) r.bytes in
      let broken = r.breaks && leb (length r.bytes) cap in
      if cut || broken || ltb cap (length body)
      then aborted (headers r) body
      else image (headers r) body

  abbrev pub is_image : Text → Bool
  is_image kind = has_prefix (strings.to_lower kind) (codes "image/")

  -- From the response on.
  unfoldable pub relay : Bool → FetchStreamResponse → Served
  unfolding copy has_prefix
  relay cut r =
      if not (r.status == 200)
      then refused 502 (codes "upstream status")
      else if not (is_image r.content_type)
      then refused 502 (codes "not an image")
      else if ltb_ℤ (pos max_image_bytes) r.content_length
      then refused 502 (codes "image too large")
      else copy max_image_bytes cut r

  -- The body is closed when the handler returns or panics.
  unfoldable pub fetched : Bool → Result FetchStreamResponse × S → Served × S
  unfolding relay
  fetched cut (err e, s) = (refused 502 (codes "fetch failed"), s)
  fetched cut (ok r, s) = (relay cut r, fetcher.close r s)

  abbrev pub is_web : Option U → Bool
  is_web none = false
  is_web (some u) =
      text_eq (urls.scheme u) (codes "http") || text_eq (urls.scheme u) (codes "https")

  -- `ServeHTTP`, with the parameters u and s of the query.
  unfoldable pub serve_http : SignLib → Text → Bool → Text → Text → S → Served × S
  unfolding fetched
  serve_http lib secret cut raw sig s =
      if is_empty raw || is_empty sig
      then (refused 400 (codes "missing params"), s)
      else if not (verify lib secret raw sig)
      then (refused 403 (codes "bad signature"), s)
      else if not (is_web (urls.parse raw))
      then (refused 400 (codes "bad url"), s)
      else fetched cut
          (fetcher.fetch_stream (record { url = raw; etag = []; last_modified = [] }) s)

  take_all :
      {A : Type 0} (n : ℕ) (xs : List A) → length (take (suc n) xs) ≤ n → take (suc n) xs ≡ xs
  take_all n [] h = refl
  take_all zero (x ∷ xs) h = absurd (omega (arith, h))
  take_all (suc n) (x ∷ xs) h = ap (λ ys. x ∷ ys) (take_all n xs (omega (arith, h)))

  copy_cases :
      (cap : ℕ) (cut : Bool) (r : FetchStreamResponse)
      → (copy cap cut r ≡ aborted (headers r) (take (suc cap) r.bytes))
        ⊎ ((copy cap cut r ≡ image (headers r) r.bytes)
            × ((r.breaks ≡ false) × (length r.bytes ≤ cap)))
  unfolding copy
  copy_cases cap cut r =
      elim (Bool-cases (
        cut
        || (r.breaks && leb (length r.bytes) cap)
        || ltb cap (length (take (suc cap) r.bytes)))) [
          | inl h ↦ inl (rw h refl)
          | inr h ↦
              let short : length (take (suc cap) r.bytes) ≤ cap = ground (arith, h) in
              let whole = take_all cap r.bytes short in
              let fits = subst (λ b. length b ≤ cap) whole short in
              inr (rw (h, whole, copy) refl, (ground (arith, h, fits), fits))
        ]

  -- The response that is shown.
  pub record IsShown (r : FetchStreamResponse) (hs : List (Text × Text)) (body : Text)
      : Type 0 where
    pub status : r.status ≡ 200
    pub kind : is_image r.content_type ≡ true
    pub whole : body ≡ r.bytes
    pub ended : r.breaks ≡ false
    pub within : length body ≤ max_image_bytes
    pub sent : hs ≡ headers r

  module _ (lib : SignLib) (secret : Text) (raw sig : Text) (s : S) where
    abbrev request : Result FetchStreamResponse × S
    request = fetcher.fetch_stream (record { url = raw; etag = []; last_modified = [] }) s

    abbrev Allowed : Type 0
    Allowed = (verify lib secret raw sig ≡ true) × (is_web (urls.parse raw) ≡ true)

    -- What became of the client: nothing, a failed request, or one whose body is closed.
    pub Settled : S → Type 0
    Settled s' =
        (s' ≡ s)
        ⊎ (Allowed
            × (((e : Error) × (request ≡ (err e, s')))
                ⊎ ((r : FetchStreamResponse) × ((t : S) × ((request ≡ (ok r, t))
                        × (s' ≡ fetcher.close r t))))))

    pub Shown : Served → Type 0
    Shown (image hs body) =
        Allowed
        × ((r : FetchStreamResponse) × ((t : S) × ((request ≡ (ok r, t)) × IsShown r hs body)))
    Shown (refused code message) = Unit
    Shown (aborted hs body) = Unit

    relayed :
        (cut : Bool) (r : FetchStreamResponse) (t : S)
        → Allowed
        → request ≡ (ok r, t)
        → Shown (relay cut r)
    unfolding Shown relay
    relayed cut r t a e = elim (Bool-cases (r.status == 200)) [
      | inr h ↦ rw h tt
      | inl h ↦ elim (Bool-cases (is_image r.content_type)) [
        | inr k ↦ rw (h, k) tt
        | inl k ↦ elim (Bool-cases (ltb_ℤ (pos max_image_bytes) r.content_length)) [
          | inl l ↦ rw (h, k, l) tt
          | inr l ↦ elim (copy_cases max_image_bytes cut r) [
            | inl c ↦ rw (h, k, l, c) tt
            | inr (c, (b, w)) ↦
                rw (h, k, l, c)
                  (
                    a,
                    (
                      r,
                      (
                        t,
                        (
                          e,
                          record {
                            status = ground (arith, h);
                            kind = k;
                            whole = refl;
                            ended = b;
                            within = w;
                            sent = refl;
                          },
                        ),
                      ),
                    ),
                  )
          ]
        ]
      ]
    ]

    answered :
        (cut : Bool) (p : Result FetchStreamResponse × S)
        → Allowed
        → request ≡ p
        → Settled (fetched cut p).1 × Shown (fetched cut p).0
    unfolding Settled Shown fetched
    answered cut (err e, t) a h = (inr (a, inl (e, h)), tt)
    answered cut (ok r, t) a h = (inr (a, inr (r, (t, (h, refl)))), relayed cut r t a h)

    -- Whatever the browser asks for, nothing is fetched but an address of the web whose signature verifies,
    -- and the body of every response is closed. An image is shown only if the server answered
    -- with status 200 and an image type and its body came to its end without an error, and then what is
    -- shown is that body, whole and within the cap.
    pub serve_http-Settled :
        (cut : Bool)
        → Settled (serve_http lib secret cut raw sig s).1
          × Shown (serve_http lib secret cut raw sig s).0
    unfolding serve_http Settled Shown
    serve_http-Settled cut = elim (Bool-cases (is_empty raw || is_empty sig)) [
      | inl h ↦ rw h (inl refl, tt)
      | inr h ↦ elim (Bool-cases (verify lib secret raw sig)) [
        | inr k ↦ rw (h, k) (inl refl, tt)
        | inl k ↦ elim (Bool-cases (is_web (urls.parse raw))) [
          | inr l ↦ rw (h, k, l) (inl refl, tt)
          | inl l ↦
              subst {A = Served × S} (λ o. Settled o.1 × Shown o.0)
                (sym (rw (h, k, l, serve_http) refl)) (answered cut request (k, l) refl)
        ]
      ]
    ]
