-- ===== src/Http/Send/Hidden.antt =====
-- What the logs of `send` of tanu-core/src/http.rs hide.
use tanu.Prelude.{
  Bool, true, false, List, [], ◌∷◌, ◌++◌, Option, none, some, Text, Result, ok, err, map, All,
  if◌then◌else◌, ◌≡◌, ◌∙◌, refl, sym, subst,
}
use tanu.Masking.{Settings, mask, should_mask_sensitive, is_sensitive_header}
use tanu.Masking.Headers.{only_last, mask_headers, mask_headers-values}
use tanu.Runner.Startup.{publish}
use tanu.Http.{
  HttpApi, HeaderMap, Error, get_all, LogRequest, Log, Response, Request, Answer, World,
}
use tanu.Http.Body.{response_from}
use tanu.Http.Logging.{log_request, log_response, report, report-world, shown_headers}
use tanu.Http.Builder.{RequestBuilder}
use tanu.Http.Send.{send}
use tanu.Http.Redirects.{
  Outcome, conclude, conclude_with, conclude_without_location, store_cookies, keep_cookies,
}
use tanu.Http.Send.Exits.{Rule, send_rule, Same, keep-Same, store-Same}

All-append :
    {A : Type 0} (P : A → Type 0) (xs : List A) (x : A) → All P xs → P x → All P (xs ++ (x ∷ []))
All-append P [] x a p = (p, tt)
All-append P (y ∷ xs) x a p = (a.0, All-append P xs x a.1 p)

module _ (api : HttpApi) (lower : Text → Text) (s : Settings) where
  -- no sensitive header has another value than the mask
  abbrev pub HidesHeaders : HeaderMap api → Type 0
  HidesHeaders headers =
      (name : Text)
      → is_sensitive_header lower s name ≡ true
      → All (λ v. v ≡ mask) (get_all api name headers)

  -- nor does the log of a call, of the request and of the response
  abbrev pub Hides : Log api → Type 0
  Hides log = HidesHeaders log.request.headers × HidesHeaders log.response.headers

  abbrev pub ChannelHides : Option (List (Log api)) → Type 0
  ChannelHides none = Unit
  ChannelHides (some logs) = All Hides logs

  All-masked :
      (b : Bool) (vs : List Text)
      → b ≡ true
      → All (λ v. v ≡ mask) (map (λ v. if b then mask else v) vs)
  All-masked b [] h = tt
  All-masked b (v ∷ vs) h = (rw h refl, All-masked b vs h)

  if-HidesHeaders :
      (on : Bool) (headers : HeaderMap api)
      → on ≡ true
      → HidesHeaders (if on then mask_headers lower api.maps s headers else headers)
  if-HidesHeaders true headers e name h =
      subst (All (λ v. v ≡ mask)) (sym (mask_headers-values lower api.maps s headers name))
        (All-masked (is_sensitive_header lower s name) (only_last (get_all api name headers)) h)
  if-HidesHeaders false headers e name h = cc

  shown-HidesHeaders :
      (headers : HeaderMap api)
      → should_mask_sensitive s ≡ true
      → HidesHeaders (shown_headers api lower s headers)
  unfolding shown_headers
  shown-HidesHeaders headers on = if-HidesHeaders (should_mask_sensitive s) headers on

  new-HidesHeaders : HidesHeaders api.maps.new
  new-HidesHeaders name h = rw api.maps.iter-new tt

  publish-Hides :
      (log : Log api) (channel : Option (List (Log api)))
      → Hides log
      → ChannelHides channel
      → ChannelHides (publish log channel).1
  unfolding publish
  publish-Hides log none l c = tt
  publish-Hides log (some logs) l c = All-append Hides logs log c l

  module _ (answer : List (Request api) → Answer api) where
    -- the settings are these, they mask, and what was published hides
    abbrev IsHiding : World api → Type 0
    IsHiding w = (w.settings ≡ s) × ChannelHides w.channel

    abbrev EndsHiding : Outcome api → Type 0
    EndsHiding o = ChannelHides o.1.channel

    report-Hides :
        {A : Type 0} (log : Log api) (result : Result (Error api.E) A) (w : World api)
        → Hides log
        → ChannelHides w.channel
        → ChannelHides (report api log result w).1.channel
    report-Hides log result w l c =
        subst (λ (v : World api). ChannelHides v.channel) (sym (report-world api log result w))
          (publish-Hides log w.channel l c)

    Same-IsHiding : (w v : World api) → Same api w v → IsHiding w → IsHiding v
    Same-IsHiding w v k h = (k.0 ∙ h.0, subst ChannelHides (sym k.1) h.1)

    module _ (on : should_mask_sensitive s ≡ true) where
      conclude-Hides :
          (store : Response api → World api → World api)
          → ((r : Response api) (w : World api) → Same api w (store r w))
          → (request : LogRequest api) (result : Result (Error api.E) (Response api))
            (w : World api)
          → HidesHeaders request.headers
          → IsHiding w
          → EndsHiding (conclude_with api lower store request result w)
      unfolding conclude_with log_response
      conclude-Hides store same request (err e) w q h = h.1
      conclude-Hides store same request (ok r) w q h =
          report-Hides _ (ok r) (store r w)
            (
              q,
              subst (λ t. HidesHeaders (shown_headers api lower t r.headers)) (sym h.0)
                  (shown-HidesHeaders r.headers on),
            )
            (Same-IsHiding w (store r w) (same r w) h).1

      hiding :
          (b : RequestBuilder api)
          → Rule api lower answer b IsHiding
              (λ request o. HidesHeaders request.headers → EndsHiding o)
              EndsHiding
      unfolding conclude conclude_without_location log_request
      hiding b = record {
        keeps = λ res url w h.
            Same-IsHiding w (keep_cookies api lower res url w) (keep-Same api lower res url w) h;
        goes = λ req w h. h;
        fails = λ request e w h q. h.1;
        concludes = λ request res url w h q.
            conclude-Hides (store_cookies api lower) (store-Same api lower) request
              (response_from api res url) w q h;
        lost = λ request res url w e h q.
            conclude-Hides (λ r v. v) (λ r v. (refl, refl, refl)) request
              (response_from api res url) _ q
              (Same-IsHiding w (keep_cookies api lower res url w) (keep-Same api lower res url w)
                h);
        reports = λ request e w h q. report-Hides _ _ w (q, new-HidesHeaders) h.1;
        begins = λ url w o e h k. k (
            subst (λ t. HidesHeaders (shown_headers api lower t b.headers)) (sym h.0)
              (shown-HidesHeaders b.headers on));
        stops = λ e w h. h.1;
      }

      -- While masking is on, a call adds no log to the channel in which a sensitive header, of the request
      -- or of the response, has another value than the mask, however the call ends.
      pub send-ChannelHides :
          (b : RequestBuilder api) (w : World api)
          → w.settings ≡ s
          → ChannelHides w.channel
          → ChannelHides (send api lower answer b w).1.channel
      send-ChannelHides b w h c = send_rule api lower answer (hiding b) w (h, c)
