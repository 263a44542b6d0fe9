-- ===== src/Http/Send/Reports.antt =====
-- What a call of `send` of tanu-core/src/http.rs publishes.
use tanu.Prelude.{
  List, [], ◌∷◌, ◌++◌, Option, some, Text, Result, ok, err, ◌≡◌, ◌∙◌, ◌⊎◌, inl, inr, refl, sym, ap,
  subst,
}
use tanu.Masking.{Settings}
use tanu.Http.{HttpApi, Url, Error, http_legacy, LogRequest, Log, Response, Request, Answer, World}
use tanu.Http.Body.{response_from}
use tanu.Http.Logging.{log_request, log_response, no_response, report}
use tanu.Http.Builder.{RequestBuilder}
use tanu.Http.Send.{send}
use tanu.Http.Redirects.{
  Outcome, conclude, conclude_with, conclude_without_location, store_cookies, keep_cookies,
  compose_url,
}
use tanu.Http.Send.Exits.{Rule, send_rule, Same, keep-Same, store-Same, report-open}

module _ (api : HttpApi) (lower : Text → Text) (answer : List (Request api) → Answer api) where
  module _ (s : Settings) (logs : List (Log api)) where
    -- what is published of a call, by its outcome
    abbrev pub Said :
        LogRequest api → Result (Error api.E) (Response api) → Option (List (Log api)) → Type 0
    Said request (ok response) channel =
        channel
        ≡ some (
            logs
            ++ (record { request = request; response = log_response api lower s response } ∷ []))
    Said request (err e) channel =
        (channel ≡ some logs)
        ⊎ (channel ≡ some (logs ++ (record { request = request; response = no_response api } ∷ [])))

    abbrev Quiet : World api → Type 0
    Quiet w = (w.settings ≡ s) × (w.channel ≡ some logs)

    Quiet-Same : (w v : World api) → Quiet w → Same api w v → Quiet v
    Quiet-Same w v q k = (k.0 ∙ q.0, k.1 ∙ q.1)

    conclude-Said :
        (store : Response api → World api → World api)
        → ((r : Response api) (w : World api) → Same api w (store r w))
        → (request : LogRequest api) (result : Result (Error api.E) (Response api)) (w : World api)
        → Quiet w
        → Said request
            (conclude_with api lower store request result w).0
            (conclude_with api lower store request result w).1.channel
    unfolding conclude_with
    conclude-Said store same request (err e) w q = inl q.1
    conclude-Said store same request (ok r) w q =
        subst (λ o. Said request o.0 o.1.channel)
          (sym
            (report-open api _ (ok r) logs (store r w) (Quiet-Same w (store r w) q (same r w)).1))
          (ap
            (λ t.
              some (
                logs ++ (record { request = request; response = log_response api lower t r } ∷ [])))
            q.0)

    report-Said :
        (request : LogRequest api) (e : api.E) (w : World api)
        → Quiet w
        → Said request
            (report api {A = Response api}
              (record { request = request; response = no_response api })
              (err (http_legacy e))
              w).0
            (report api {A = Response api}
              (record { request = request; response = no_response api })
              (err (http_legacy e))
              w).1.channel
    report-Said request e w q =
        subst (λ (o : Outcome api). Said request o.0 o.1.channel)
          (sym (
            report-open api (record { request = request; response = no_response api })
              (err (http_legacy e)) logs w q.1))
          (inr refl)

    -- what a call publishes: nothing where it fails before its first request, and else as above
    pub data Reported (b : RequestBuilder api) (o : Outcome api) : Type 0 where
      unsent : (e : Error api.E) → o.0 ≡ err e → o.1.channel ≡ some logs → Reported b o
      sent :
          (url : Url api)
          → api.parse_url (compose_url b.url b.query_params) ≡ ok url
          → Said (log_request api lower s url b.method b.headers b.body) o.0 o.1.channel
          → Reported b o

    reported :
        (b : RequestBuilder api)
        → Rule api lower answer b Quiet (λ request o. Said request o.0 o.1.channel) (Reported b)
    unfolding conclude conclude_without_location
    reported b = record {
      keeps = λ res url w q.
          Quiet-Same w (keep_cookies api lower res url w) q (keep-Same api lower res url w);
      goes = λ req w q. q;
      fails = λ request e w q. inl q.1;
      concludes = λ request res url w q.
          conclude-Said (store_cookies api lower) (store-Same api lower) request
            (response_from api res url) w q;
      lost = λ request res url w h q.
          conclude-Said (λ r v. v) (λ r v. (refl, refl, refl)) request (response_from api res url) _
            (Quiet-Same w (keep_cookies api lower res url w) q (keep-Same api lower res url w));
      reports = report-Said;
      begins = λ url w o h q k. sent url h (
          subst (λ t. Said (log_request api lower t url b.method b.headers b.body) o.0 o.1.channel)
            q.0 k);
      stops = λ e w q. unsent e refl q.1;
    }

    -- With an open channel, a call that returns a response has published one log: the request as it was
    -- first sent and the response, of the last redirect if there were any, both as the settings show
    -- them. One that fails has published no log, or the one of its first request and no response; where
    -- its URL does not parse it has published none.
    pub send-Reported :
        (b : RequestBuilder api) (w : World api)
        → w.settings ≡ s
        → w.channel ≡ some logs
        → Reported b (send api lower answer b w)
    send-Reported b w h k = send_rule api lower answer (reported b) w (h, k)
