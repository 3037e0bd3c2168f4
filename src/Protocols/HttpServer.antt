-- ===== src/Protocols/HttpServer.antt =====
-- The HTTP server of src/protocols/http_server.c, over mongoose as an interface.
pub mod Routes
use Prim.Native.String.{String}
use hq_platform.Base.{
  ℕ, ◌+◌, ◌-◌, ◌%◌, ◌^◌, ◌==◌, ltb, Bool, true, false, ◌&&◌, not, List, [], ◌∷◌, ◌++◌, Option, none,
  some, take, length, if◌then◌else◌,
}
use hq_platform.Base.Text.{CString, codes}

-- `HTTPServerMethod_t`
pub data Method : Type 0 where
  put get post delete patch unhallowed : Method

-- `HTTPServerResponse_t`
pub record Response : Type 0 where
  pub code : ℕ
  pub headers : CString
  pub msg : CString

-- `HTTPServerApiToken_t`; a callback is a number.
pub record Token : Type 0 where
  pub api_name : CString
  pub cb : ℕ

-- What is used of mongoose, `mg_match`, `mg_strcasecmp (s, t) == 0`, and what `mg_http_reply` prints
-- for a format without arguments, where `none` is a format that asks for one; what the callbacks of
-- the application answer; and the milliseconds of a number of ticks.
pub record Outside : Type 0 where
  pub match : CString → CString → Bool
  pub same_word : CString → CString → Bool
  pub print : CString → Option CString
  pub run : ℕ → CString → CString → Method → Response
  pub to_ms : ℕ → ℕ

-- What `mg_http_reply` sends.
pub record Reply : Type 0 where
  pub code : ℕ
  pub headers : CString
  pub body : Option CString

-- The globals, and the replies so far, the last one first.
pub record Server : Type 0 where
  pub nc : Option ℕ
  pub tokens : List Token
  pub last_msg_time : ℕ
  pub replies : List Reply

-- The size of `tokens`, and CONNECTION_TIMEOUT
abbrev pub max_tokens : ℕ
max_tokens = 16

abbrev pub connection_timeout : ℕ
connection_timeout = 5000

-- `method_names`
unfoldable pub method_name : Method → CString
method_name put = codes "PUT"
method_name get = codes "GET"
method_name post = codes "POST"
method_name delete = codes "DELETE"
method_name patch = codes "PATCH"
method_name unhallowed = codes "UNHALLOWED"

-- The order of the loop
abbrev pub methods : List Method
methods = put ∷ get ∷ post ∷ delete ∷ patch ∷ unhallowed ∷ []

-- The pattern of a token, in its buffer of 128 bytes
abbrev pub pattern : Token → CString
pattern token = take 127 (codes "/api/" ++ token.api_name ++ codes "#")

abbrev pub unknown_api : Response
unknown_api = record { code = 400; headers = []; msg = codes "Unknown API" }

module _ (M : Outside) where
  unfoldable pub get_method_from : CString → List Method → Method
  get_method_from name [] = unhallowed
  get_method_from name (m ∷ ms) =
      let later = get_method_from name ms in if M.same_word name (method_name m) then m else later

  -- `_get_method`
  abbrev pub get_method : CString → Method
  get_method name = get_method_from name methods

  -- The loop over the tokens
  unfoldable pub first_token : CString → List Token → Option Token
  first_token uri [] = none
  first_token uri (token ∷ tokens) =
      let later = first_token uri tokens in
      if M.match uri (pattern token) then some token else later

  -- `mg_http_reply`, which is given the message as its format
  abbrev pub http_reply : Response → Reply
  http_reply r = record { code = r.code; headers = r.headers; body = M.print r.msg }

  -- The arguments of `mg_http_reply`
  abbrev pub reply_of : CString → CString → CString → Option Token → Response
  reply_of uri body method none = unknown_api
  reply_of uri body method (some token) = M.run token.cb uri body (get_method method)

  -- `fn` at MG_EV_HTTP_MSG, with the ticks of the clock and the parts of the message
  unfoldable pub on_http_msg : Server → ℕ → CString → CString → CString → Server
  on_http_msg s now uri body method =
      let token = first_token uri s.tokens in
      record s {
        last_msg_time = now;
        replies =
            http_reply
              (if M.match uri (codes "/api/#") then reply_of uri body method token else unknown_api)
            ∷ s.replies;
      }

  -- `HTTPServer_IsClientConnected`, with the ticks of the clock; they are 32 bits.
  unfoldable pub is_client_connected : Server → ℕ → Bool
  is_client_connected s now =
      not (s.last_msg_time == 0)
      && ltb (M.to_ms ((now + 2 ^ 32 - s.last_msg_time) % 2 ^ 32)) connection_timeout

-- `HTTPServer_Init`, with what `mg_http_listen` returns
unfoldable pub init : Option ℕ → Server → Server
init answer s = elim s.nc [ none ↦ record s { nc = answer } | some c ↦ s ]

-- `HTTPServer_Deinit`, with the connection that it closes
unfoldable pub deinit : Server → Server × Option ℕ
deinit s = (record s { nc = none }, s.nc)

-- `HTTPServer_AddApiToken`; `none` is an assertion that fails.
unfoldable pub add_api_token : Server → Token → Option Server
add_api_token s token =
    if ltb (length s.tokens) max_tokens
    then some (record s { tokens = s.tokens ++ token ∷ [] })
    else none
