-- ===== src/Examples/Services.antt =====
-- The logging of gRPC calls, tanu-core/src/grpc.rs, at concrete inputs.
use tanu.Prelude.{
  ℕ, [], ◌∷◌, ◌++◌, none, some, Text, codes, Result, ok, ◌>>=◌, map_option, ◌≡◌, refl,
}
use tanu.Grpc.{GrpcApi, Request, Response, call, logged, call-logged}
use tanu.Grpc.Message.{format_message}
use tanu.Examples.Redaction.{header_map}

abbrev api : GrpcApi
api = record {
  headers = header_map;
  metadata = header_map;
  E = Text;
  Code = ℕ;
  Body = Text;
  ok_code = 0;
  to_str = λ t. some t;
  parse_key = λ t. some t;
  parse_value = λ t. some t;
  parse_code = λ t. some 5;
  decode = λ t. some t;
}

abbrev request : Request api
request = record {
  path = codes "/echo.Echo/Unary";
  headers = (codes "authorization", codes "Bearer t") ∷ (codes "trace-bin", codes "AA") ∷ [];
  body = codes "ping";
}

abbrev answer : Request api → Result Text (Response api)
answer r = ok (record { headers = (codes "grpc-status", codes "5") ∷ []; body = codes "pong" })

call-logged_example : call api (ok tt) answer request (some []) ≡ (
  ok tt >>= (λ u. answer request),
  map_option
      (λ logs. logs ++ logged api (ok tt) answer request (ok tt >>= (λ u. answer request)))
      (some []),
)
call-logged_example = call-logged api (ok tt) answer request (some [])

dumped :
    format_message (λ b. none) (72 ∷ 0 ∷ [])
    ≡ codes "0000  48 00                                             H."
unfolding format_message
dumped = refl
