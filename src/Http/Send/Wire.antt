-- ===== src/Http/Send/Wire.antt =====
-- The requests that `send` of tanu-core/src/http.rs puts on the wire.
use tanu.Prelude.{
  ℕ, zero, suc, ◌≤◌, ◌==◌, Bool, true, false, ◌&&◌, ◌||◌, List, [], ◌∷◌, ◌++◌, Option, none, some,
  Text, Result, ok, err, if◌then◌else◌, length, append-nil, append_assoc, ◌≡◌, ◌∙◌, ◌⊎◌, inl, inr,
  refl, sym, ap, arith,
}
use tanu.Masking.Headers.{Entry}
use tanu.Http.{
  HttpApi, HeaderMap, Url, Bytes, Method, is_post, is_redirection, get_text, Error, LogRequest,
  Response, Request, Reply, Answer, World,
}
use tanu.Http.Body.{response_from}
use tanu.Http.Logging.{report-world}
use tanu.Http.Redirects.{
  Outcome, conclude, conclude_with, conclude_without_location, store_cookies, keep_cookies,
  put_on_wire, redirect_answered, redirect_to, redirect_url, redirect_location, redirect_turn,
  follow_redirects, next_url, next_method, redirect_request, redirect_body, request_headers,
}
use tanu.Http.Send.Exits.{Same, keep-Same, store-Same}

module _ (api : HttpApi) (lower : Text → Text) where
  -- the headers of a request are those of the builder, and a cookie header or none
  abbrev pub Carries : HeaderMap api → List Entry → Type 0
  Carries headers es = (c : List Entry) × (es ≡ api.maps.iter headers ++ c)

  -- The requests after one with the method `m`: each has its method or is a GET, its body is empty if it
  -- is a GET and else that of the builder, and it carries the builder's headers.
  abbrev pub Chain : HeaderMap api → Option (Bytes api) → Method → List (Request api) → Type 0
  Chain headers body m [] = Unit
  Chain headers body m (req ∷ reqs) =
      ((req.method ≡ m) ⊎ (req.method ≡ Method.get))
      × (req.body ≡ redirect_body api lower req.method body)
      × Carries headers req.headers
      × Chain headers body req.method reqs

  method-cases :
      (status : ℕ) (m : Method)
      → (next_method api lower status m ≡ m) ⊎ (next_method api lower status m ≡ Method.get)
  unfolding next_method
  method-cases status m =
      pick ((status == 303) || (is_post m && ((status == 301) || (status == 302))))
    where
      pick :
          (b : Bool)
          → ((if b then Method.get else m) ≡ m) ⊎ ((if b then Method.get else m) ≡ Method.get)
      pick true = inr refl
      pick false = inl refl

  with-wire :
      (store : Response api → World api → World api)
      → ((r : Response api) (w : World api) → Same api w (store r w))
      → (request : LogRequest api) (result : Result (Error api.E) (Response api)) (w : World api)
      → (conclude_with api lower store request result w).1.wire ≡ w.wire
  unfolding conclude_with
  with-wire store same request (err e) w = refl
  with-wire store same request (ok r) w =
      ap (λ (v : World api). v.wire) (report-world api _ (ok r) (store r w)) ∙ (same r w).2

  module _ (answer : List (Request api) → Answer api) (headers : HeaderMap api)
      (body : Option (Bytes api)) (request : LogRequest api) where
    -- at most `n` more requests between two worlds, in a chain
    abbrev pub Sends : ℕ → Method → World api → World api → Type 0
    Sends n m w v =
        (reqs : List (Request api)) × (v.wire ≡ w.wire ++ reqs)
        × (length reqs ≤ n)
        × Chain headers body m reqs

    pub none-Sends : (n : ℕ) (m : Method) (w v : World api) → v.wire ≡ w.wire → Sends n m w v
    none-Sends n m w v h = ([], h ∙ sym (append-nil w.wire), omega arith, tt)

    pub conclude-Sends :
        (n : ℕ) (m : Method) (res : Reply api) (u : Url api) (w : World api)
        → Sends n m w (conclude api lower res u request w).1
    unfolding conclude
    conclude-Sends n m res u w = none-Sends n m w (conclude api lower res u request w).1 (
        with-wire (store_cookies api lower) (store-Same api lower) request (response_from api res u)
          w)

    -- one request more, and then those
    cons-Sends :
        (n : ℕ) (m : Method) (req : Request api) (w v : World api)
        → (req.method ≡ m) ⊎ (req.method ≡ Method.get)
        → req.body ≡ redirect_body api lower req.method body
        → Carries headers req.headers
        → Sends n req.method (put_on_wire api lower answer req w) v
        → Sends (suc n) m w v
    cons-Sends n m req w v k b c s =
        (req ∷ s.0, s.1 ∙ append_assoc w.wire (req ∷ []) s.0, omega (arith, s.2), (k, b, c, s.3))

    module _ (n : ℕ) (next : Method → Reply api → Url api → World api → Outcome api)
        (rest : (m : Method) (r : Reply api) (u : Url api) (w : World api)
          → Sends n m w (next m r u w).1) where
      answered-Sends :
          (m : Method) (u : Url api) (w : World api) (a : Result api.E (Reply api))
          → Sends n m w (redirect_answered api lower answer next headers body request m u w a).1
      unfolding redirect_answered
      answered-Sends m u w (err e) = none-Sends n m w w refl
      answered-Sends m u w (ok res) = rest m res u w

      to-Sends :
          (m m' : Method) (u : Url api) (w : World api) (t : Result api.E Text)
          → (m' ≡ m) ⊎ (m' ≡ Method.get)
          → Sends (suc n) m w (redirect_to api lower answer next headers body request m' u w t).1
      unfolding redirect_to redirect_request request_headers
      to-Sends m m' u w (err e) k = none-Sends (suc n) m w w refl
      to-Sends m m' u w (ok target) k =
          let req = redirect_request api lower headers m' body u target w in
          let w' = put_on_wire api lower answer req w in
          let o =
            redirect_answered api lower answer next headers body request m' u w'
              (answer w'.wire).outcome in
          cons-Sends n m req w o.1 k refl (_, refl)
            (answered-Sends m' u w' (answer w'.wire).outcome)

      url-Sends :
          (m m' : Method) (w : World api) (t : Result Text (Url api))
          → (m' ≡ m) ⊎ (m' ≡ Method.get)
          → Sends (suc n) m w (redirect_url api lower answer next headers body request m' w t).1
      unfolding redirect_url
      url-Sends m m' w (err e) k = none-Sends (suc n) m w w refl
      url-Sends m m' w (ok u) k = to-Sends m m' u w (api.parse_uri (api.url_text u)) k

      location-Sends :
          (m : Method) (res : Reply api) (u : Url api) (w : World api) (l : Option Text)
          → Sends
              (suc n)
              m
              w
              (redirect_location api lower answer next headers body request m res u w l).1
      unfolding redirect_location conclude_without_location
      location-Sends m res u w none =
          none-Sends (suc n) m w (conclude_without_location api lower res u request w).1
            (with-wire (λ r v. v) (λ r v. (refl, refl, refl)) request (response_from api res u) w)
      location-Sends m res u w (some l) =
          url-Sends m (next_method api lower res.status m) w (next_url api lower l u)
            (method-cases res.status m)

      turn-Sends :
          (m : Method) (res : Reply api) (u : Url api) (w : World api) (b : Bool)
          → Sends
              (suc n)
              m
              w
              (redirect_turn api lower answer next headers body request m res u w b).1
      unfolding redirect_turn
      turn-Sends m res u w false = conclude-Sends (suc n) m res u w
      turn-Sends m res u w true =
          let k = keep-Same api lower res u w in
          let s =
            location-Sends m res u (keep_cookies api lower res u w) (get_text api _ res.headers) in
          (s.0, s.1 ∙ ap (λ l. l ++ s.0) k.2, s.2, s.3)

    pub follow-Sends :
        (left : ℕ) (m : Method) (res : Reply api) (u : Url api) (w : World api)
        → Sends left m w (follow_redirects api lower answer left headers body request m res u w).1
    unfolding follow_redirects
    follow-Sends zero m res u w = conclude-Sends zero m res u w
    follow-Sends (suc left) m res u w =
        turn-Sends left (follow_redirects api lower answer left headers body request)
          (follow-Sends left) m res u w (is_redirection res.status)
