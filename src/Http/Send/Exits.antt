-- ===== src/Http/Send/Exits.antt =====
-- What holds however `send` of tanu-core/src/http.rs ends: a rule with one premise for each way to end,
-- and one for each change of the world on the way.
use tanu.Prelude.{
  ℕ, zero, suc, Bool, true, false, List, Option, none, some, Text, Result, ok, err, if◌then◌else◌,
  is_empty, Map, ◌++◌, [], ◌∷◌, ap, ◌≡◌, refl,
}
use tanu.Http.{
  HttpApi, HeaderMap, Url, Bytes, Method, Error, http_legacy, LogRequest, Request, Reply, Response,
  Log, Answer, World, is_redirection, get_text,
}
use tanu.Runner.Startup.{publish}
use tanu.Http.Body.{set_cookies}
use tanu.Http.Logging.{log_request, no_response, report}
use tanu.Http.Builder.{RequestBuilder}
use tanu.Http.Send.{
  awaited, after_reply, after_answer, first_request, send_to, parsed, send_url, send,
}
use tanu.Http.Redirects.{
  Outcome, conclude, conclude_without_location, keep_cookies, store_cookies, put_on_wire,
  redirect_answered, redirect_to, redirect_url, redirect_location, redirect_turn, follow_redirects,
  next_url, next_method, compose_url,
}

module _ (api : HttpApi) where
  -- the worlds differ in their cookies alone
  abbrev pub Same : World api → World api → Type 0
  Same w v = (v.settings ≡ w.settings) × (v.channel ≡ w.channel) × (v.wire ≡ w.wire)

  if-Same :
      (b : Bool) (w : World api) (store : Map (List api.Cookie))
      → Same w (if b then w else record w { cookie_store = store })
  if-Same true w store = (refl, refl, refl)
  if-Same false w store = (refl, refl, refl)

  pub keep-Same :
      (lower : Text → Text) (res : Reply api) (url : Url api) (w : World api)
      → Same w (keep_cookies api lower res url w)
  unfolding keep_cookies
  keep-Same lower res url w = if-Same (is_empty (set_cookies api res.headers)) w _

  pub store-Same :
      (lower : Text → Text) (r : Response api) (w : World api)
      → Same w (store_cookies api lower r w)
  unfolding store_cookies
  store-Same lower r w = if-Same (is_empty r.cookies) w _

  -- With an open channel a report adds its log and gives the result.
  pub report-open :
      {A : Type 0} (log : Log api) (result : Result (Error api.E) A) (logs : List (Log api))
      (w : World api)
      → w.channel ≡ some logs
      → report api log result w ≡ (result, record w { channel = some (logs ++ (log ∷ [])) })
  unfolding report publish
  report-open log result logs w h = ap (λ c. report api log result (record w { channel = c })) h

module _ (api : HttpApi) (lower : Text → Text) (answer : List (Request api) → Answer api) where
  -- `P` of the world on the way, `Q` of what a call with a logged request ends with, `F` of what one ends
  -- with that gets no such request
  pub record Rule (b : RequestBuilder api) (P : World api → Type 0)
      (Q : LogRequest api → Outcome api → Type 0) (F : Outcome api → Type 0) : Type 0 where
    pub keeps :
        (res : Reply api) (url : Url api) (w : World api)
        → P w
        → P (keep_cookies api lower res url w)
    pub goes : (req : Request api) (w : World api) → P w → P (put_on_wire api lower answer req w)
    pub fails :
        (request : LogRequest api) (e : Error api.E) (w : World api) → P w → Q request (err e, w)
    pub concludes :
        (request : LogRequest api) (res : Reply api) (url : Url api) (w : World api)
        → P w
        → Q request (conclude api lower res url request w)
    pub lost :
        (request : LogRequest api) (res : Reply api) (url : Url api) (w : World api)
        → is_redirection res.status ≡ true
        → P w
        → Q request
            (conclude_without_location api lower res url request (keep_cookies api lower res url w))
    pub reports :
        (request : LogRequest api) (e : api.E) (w : World api)
        → P w
        → Q request (
            report api
              (record { request = request; response = no_response api })
              (err (http_legacy e))
              w)
    pub begins :
        (url : Url api) (w : World api) (o : Outcome api)
        → api.parse_url (compose_url b.url b.query_params) ≡ ok url
        → P w
        → Q (log_request api lower w.settings url b.method b.headers b.body) o
        → F o
    pub stops : (e : Error api.E) (w : World api) → P w → F (err e, w)

  module _ {b : RequestBuilder api} {P : World api → Type 0}
      {Q : LogRequest api → Outcome api → Type 0} {F : Outcome api → Type 0}
      (rule : Rule b P Q F) where
    open rule use {keeps, goes, fails, concludes, lost, reports, begins, stops}

    module _ (next : Method → Reply api → Url api → World api → Outcome api)
        (headers : HeaderMap api) (body : Option (Bytes api)) (request : LogRequest api)
        (rest : (m : Method) (r : Reply api) (u : Url api) (w : World api)
          → P w
          → Q request (next m r u w)) where
      answered_rule :
          (m : Method) (u : Url api) (w : World api) (a : Result api.E (Reply api))
          → P w
          → Q request (redirect_answered api lower answer next headers body request m u w a)
      unfolding redirect_answered
      answered_rule m u w (err e) p = fails request (http_legacy e) w p
      answered_rule m u w (ok res) p = rest m res u w p

      to_rule :
          (m : Method) (u : Url api) (w : World api) (t : Result api.E Text)
          → P w
          → Q request (redirect_to api lower answer next headers body request m u w t)
      unfolding redirect_to
      to_rule m u w (err e) p = fails request _ w p
      to_rule m u w (ok target) p = answered_rule m u _ _ (goes _ w p)

      url_rule :
          (m : Method) (w : World api) (t : Result Text (Url api))
          → P w
          → Q request (redirect_url api lower answer next headers body request m w t)
      unfolding redirect_url
      url_rule m w (err e) p = fails request _ w p
      url_rule m w (ok u) p = to_rule m u w (api.parse_uri (api.url_text u)) p

      location_rule :
          (m : Method) (res : Reply api) (u : Url api) (w : World api) (l : Option Text)
          → is_redirection res.status ≡ true
          → P w
          → Q request (
              redirect_location api lower answer next headers body request m res u
                (keep_cookies api lower res u w)
                l)
      unfolding redirect_location
      location_rule m res u w none h p = lost request res u w h p
      location_rule m res u w (some l) h p =
          url_rule (next_method api lower res.status m) _ (next_url api lower l u) (keeps res u w p)

      turn_rule :
          (m : Method) (res : Reply api) (u : Url api) (w : World api) (b : Bool)
          → is_redirection res.status ≡ b
          → P w
          → Q request (redirect_turn api lower answer next headers body request m res u w b)
      unfolding redirect_turn
      turn_rule m res u w false h p = concludes request res u w p
      turn_rule m res u w true h p = location_rule m res u w (get_text api _ res.headers) h p

    pub follow_rule :
        (left : ℕ) (headers : HeaderMap api) (body : Option (Bytes api)) (request : LogRequest api)
        (m : Method) (res : Reply api) (u : Url api) (w : World api)
        → P w
        → Q request (follow_redirects api lower answer left headers body request m res u w)
    unfolding follow_redirects
    follow_rule zero headers body request m res u w p = concludes request res u w p
    follow_rule (suc left) headers body request m res u w p =
        turn_rule (follow_redirects api lower answer left headers body request) headers body request
          (follow_rule left headers body request) m res u w (is_redirection res.status) refl p

    reply_rule :
        (u : Url api) (request : LogRequest api) (res : Reply api) (w : World api)
        (redirects : Bool)
        → P w
        → Q request (after_reply api lower answer b u request res w redirects)
    unfolding after_reply
    reply_rule u request res w true p = follow_rule 10 b.headers b.body request b.method res u w p
    reply_rule u request res w false p = concludes request res u w p

    after_rule :
        (u : Url api) (request : LogRequest api)
        (a : Result (Error api.E) (Result api.E (Reply api))) (w : World api)
        → P w
        → Q request (after_answer api lower answer b u request a w)
    unfolding after_answer
    after_rule u request (err e) w p = fails request e w p
    after_rule u request (ok (err e)) w p = reports request e w p
    after_rule u request (ok (ok res)) w p =
        reply_rule u request res w (is_redirection res.status) p

    parsed_rule :
        (u : Url api) (w : World api) (t : Result api.E Text)
        → api.parse_url (compose_url b.url b.query_params) ≡ ok u
        → P w
        → F (parsed api lower answer b u w t)
    unfolding parsed send_to
    parsed_rule u w (err e) h p = stops _ w p
    parsed_rule u w (ok target) h p =
        let w₁ = put_on_wire api lower answer (first_request api lower answer b u target w) w in
        begins u w _ h p (
          after_rule u (log_request api lower w.settings u b.method b.headers b.body)
            (awaited api lower answer b.timeout (answer w₁.wire)) w₁
            (goes (first_request api lower answer b u target w) w p))

    url_send_rule :
        (url : Text) (w : World api) (t : Result Text (Url api))
        → api.parse_url (compose_url b.url b.query_params) ≡ t
        → P w
        → F (send_url api lower answer b url w t)
    unfolding send_url
    url_send_rule url w (err e) h p = stops _ w p
    url_send_rule url w (ok u) h p = parsed_rule u w (api.parse_uri url) h p

    -- What the rule gives for a whole call.
    pub send_rule : (w : World api) → P w → F (send api lower answer b w)
    unfolding send
    send_rule w p =
        url_send_rule (compose_url b.url b.query_params) w
          (api.parse_url (compose_url b.url b.query_params)) refl p
