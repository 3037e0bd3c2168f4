-- ===== src/Tests/Http.antt =====
-- A server with two tokens, of which both match.
use hq_platform.Base.{
  ℕ, ◌+◌, ◌-◌, ◌%◌, ◌^◌, ◌<◌, ◌≡◌, ◌↔◌, ◌⊎◌, true, false, [], ◌∷◌, some, arith, length, get_elem?,
}
use hq_platform.Base.Text.{CString, codes}
use hq_platform.Protocols.HttpServer.{
  Outside, Server, Token, get_method, on_http_msg, is_client_connected, pattern, unknown_api,
  http_reply, connection_timeout,
}
use hq_platform.Protocols.HttpServer.Routes.{
  NoneBefore, on_http_msg-answers, is_client_connected-within,
}

-- Everything matches, and each callback answers with its number.
abbrev outside : Outside
outside = record {
  match = λ s t. true;
  same_word = λ s t. false;
  print = λ format. some format;
  run = λ cb uri body method. record { code = cb; headers = []; msg = body };
  to_ms = λ ticks. ticks;
}

abbrev server : Server
server = record {
  nc = some 1;
  tokens =
      record { api_name = codes "config"; cb = 200 }
      ∷ record { api_name = codes "state"; cb = 201 }
      ∷ [];
  last_msg_time = 0;
  replies = [];
}

abbrev uri : CString
uri = codes "/api/config"

abbrev body : CString
body = codes "x"

abbrev method : CString
method = codes "GET"

on_http_msg-answers_example :
    (((outside.match uri (codes "/api/#") ≡ false)
        ⊎ NoneBefore outside uri server.tokens (length server.tokens))
      × ((on_http_msg outside server 7 uri body method).replies
          ≡ http_reply outside unknown_api ∷ server.replies))
    ⊎ ((n : ℕ) × (token : Token) × (outside.match uri (codes "/api/#") ≡ true)
        × (get_elem? server.tokens n ≡ some token)
        × (outside.match uri (pattern token) ≡ true)
        × NoneBefore outside uri server.tokens n
        × ((on_http_msg outside server 7 uri body method).replies
            ≡ http_reply outside (outside.run token.cb uri body (get_method outside method))
              ∷ server.replies))
on_http_msg-answers_example = on_http_msg-answers outside server 7 uri body method

is_client_connected-within_example :
    (is_client_connected outside
        (on_http_msg outside server (2 ^ 32 - 1) uri body method)
        ((2 ^ 32 - 1 + 4999) % 2 ^ 32)
      ≡ true)
    ↔ (outside.to_ms 4999 < connection_timeout)
is_client_connected-within_example =
    is_client_connected-within outside server (2 ^ 32 - 1) 4999 uri body method (omega arith)
      (omega arith) (omega arith)
