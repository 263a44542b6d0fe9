-- ===== src/Http/Send/Requests.antt =====
-- The requests of a whole call of `send` of tanu-core/src/http.rs.
use tanu.Prelude.{
  ◌≤◌, Bool, true, false, List, [], ◌∷◌, ◌++◌, Text, Result, ok, err, unwrap_or, length, append-nil,
  append_assoc, ◌≡◌, ◌∙◌, refl, sym, subst, ap, arith,
}
use tanu.Http.{
  HttpApi, Url, is_redirection, Error, http_legacy, LogRequest, Response, Request, Reply, Answer,
  World,
}
use tanu.Http.Logging.{log_request, no_response, report, report-world}
use tanu.Http.Builder.{RequestBuilder}
use tanu.Http.Send.{
  awaited, after_reply, after_answer, first_request, send_to, parsed, send_url, send,
}
use tanu.Http.Redirects.{put_on_wire, request_headers, compose_url}
use tanu.Http.Send.Wire.{Carries, Chain, Sends, none-Sends, conclude-Sends, follow-Sends}

module _ (api : HttpApi) (lower : Text → Text) where
  module _ (answer : List (Request api) → Answer api) (b : RequestBuilder api) where
    -- The requests of a call: the first is as the builder has it, and those after it make a chain.
    abbrev pub FromFirst : List (Request api) → Type 0
    FromFirst [] = Unit
    FromFirst (req ∷ reqs) =
        (req.method ≡ b.method)
        × (req.body ≡ unwrap_or b.body api.empty_bytes)
        × Carries api lower b.headers req.headers
        × Chain api lower b.headers b.body b.method reqs

    abbrev pub Puts : World api → World api → Type 0
    Puts w v =
        (reqs : List (Request api)) × (v.wire ≡ w.wire ++ reqs)
        × (length reqs ≤ 11)
        × FromFirst reqs

    no-Puts : (w : World api) → Puts w w
    no-Puts w = ([], sym (append-nil w.wire), omega arith, tt)

    reply-Sends :
        (u : Url api) (request : LogRequest api) (res : Reply api) (w : World api)
        (redirects : Bool)
        → Sends api lower answer b.headers b.body request 10 b.method w
            (after_reply api lower answer b u request res w redirects).1
    unfolding after_reply
    reply-Sends u request res w true =
        follow-Sends api lower answer b.headers b.body request 10 b.method res u w
    reply-Sends u request res w false =
        conclude-Sends api lower answer b.headers b.body request 10 b.method res u w

    after-Sends :
        (u : Url api) (request : LogRequest api)
        (a : Result (Error api.E) (Result api.E (Reply api))) (w : World api)
        → Sends api lower answer b.headers b.body request 10 b.method w
            (after_answer api lower answer b u request a w).1
    unfolding after_answer
    after-Sends u request (err e) w =
        none-Sends api lower answer b.headers b.body request 10 b.method w w refl
    after-Sends u request (ok (err e)) w =
        none-Sends api lower answer b.headers b.body request 10 b.method w
          (report api {A = Response api} (record { request = request; response = no_response api })
            (err (http_legacy e)) w).1
          (ap (λ (v : World api). v.wire)
            (report-world api {A = Response api}
              (record { request = request; response = no_response api }) (err (http_legacy e)) w))
    after-Sends u request (ok (ok res)) w = reply-Sends u request res w (is_redirection res.status)

    -- The request that a call begins with is sent, and those after it make a chain.
    abbrev pub Sent : Url api → Text → World api → World api → Type 0
    Sent u target w v =
        let req = first_request api lower answer b u target w in
        (reqs : List (Request api)) × (v.wire ≡ w.wire ++ (req ∷ reqs))
        × (length reqs ≤ 10)
        × FromFirst (req ∷ reqs)

    parsed-Sent :
        (u : Url api) (w : World api) (target : Text)
        → Sent u target w (parsed api lower answer b u w (ok target)).1
    unfolding parsed send_to first_request request_headers
    parsed-Sent u w target =
        let req = first_request api lower answer b u target w in
        let w₁ = put_on_wire api lower answer req w in
        let s =
          after-Sends u (log_request api lower w.settings u b.method b.headers b.body)
            (awaited api lower answer b.timeout (answer w₁.wire)) w₁ in
        (
          s.0,
          s.1 ∙ append_assoc w.wire (req ∷ []) s.0,
          omega (arith, s.2),
          (refl, refl, (_, refl), s.3),
        )

    parsed-Puts :
        (u : Url api) (w : World api) (t : Result api.E Text)
        → Puts w (parsed api lower answer b u w t).1
    unfolding parsed
    parsed-Puts u w (err e) = no-Puts w
    parsed-Puts u w (ok target) =
        let s = parsed-Sent u w target in
        (first_request api lower answer b u target w ∷ s.0, s.1, omega (arith, s.2), s.3)

    -- Where the URL parses, for both parsers, a call sends its first request.
    pub send-Sent :
        (w : World api) (u : Url api) (target : Text)
        → api.parse_url (compose_url b.url b.query_params) ≡ ok u
        → api.parse_uri (compose_url b.url b.query_params) ≡ ok target
        → Sent u target w (send api lower answer b w).1
    unfolding send send_url
    send-Sent w u target hp hu =
        subst
          (λ t.
            Sent u target w (send_url api lower answer b (compose_url b.url b.query_params) w t).1)
          (sym hp)
          (subst (λ t. Sent u target w (parsed api lower answer b u w t).1) (sym hu)
            (parsed-Sent u w target))

    url-Puts :
        (url : Text) (w : World api) (t : Result Text (Url api))
        → Puts w (send_url api lower answer b url w t).1
    unfolding send_url
    url-Puts url w (err e) = no-Puts w
    url-Puts url w (ok u) = parsed-Puts u w (api.parse_uri url)

    -- A call puts at most eleven requests on the wire: the first with the method and the body of the
    -- builder, and each later one with the method of the one before it or as a GET, with no body as a GET
    -- and else with the builder's. So no other method follows a GET. Each carries the builder's headers,
    -- to whichever host a redirect leads.
    pub send-Puts : (w : World api) → Puts w (send api lower answer b w).1
    unfolding send
    send-Puts w =
        url-Puts (compose_url b.url b.query_params) w
          (api.parse_url (compose_url b.url b.query_params))
