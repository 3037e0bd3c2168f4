-- ===== src/Protocols/HttpServer/Routes.antt =====
-- Who answers a message in src/protocols/http_server.c, and for how long a client counts as there.
use hq_platform.Base.{
  ℕ, zero, suc, ◌+◌, ◌-◌, ◌%◌, ◌^◌, ◌<◌, ◌≡◌, ◌≢◌, ◌↔◌, ◌⊎◌, inl, inr, refl, ap, subst, true, false,
  List, [], ◌∷◌, none, some, arith, length, get_elem?, Bool-cases, Option-cases,
}
use hq_platform.Base.Text.{CString, codes}
use hq_platform.Protocols.HttpServer.{
  Outside, Server, Token, get_method, first_token, on_http_msg, is_client_connected, pattern,
  unknown_api, http_reply, connection_timeout,
}

module _ (M : Outside) where
  -- No token before index `n` matches.
  abbrev pub NoneBefore : CString → List Token → ℕ → Type 0
  NoneBefore uri tokens n =
      (m : ℕ) (token : Token)
      → m < n
      → get_elem? tokens m ≡ some token
      → M.match uri (pattern token) ≡ false

  NoneBefore-cons :
      (uri : CString) (x : Token) (tokens : List Token) (n : ℕ)
      → M.match uri (pattern x) ≡ false
      → NoneBefore uri tokens n
      → NoneBefore uri (x ∷ tokens) (suc n)
  NoneBefore-cons uri x tokens n h k zero token lt e =
      let same : x ≡ token = cc in subst (λ z. M.match uri (pattern z) ≡ false) same h
  NoneBefore-cons uri x tokens n h k (suc m) token lt e = k m token (omega arith) e

  first_token-some :
      (uri : CString) (tokens : List Token) (token : Token)
      → first_token M uri tokens ≡ some token
      → (n : ℕ) × (get_elem? tokens n ≡ some token)
        × (M.match uri (pattern token) ≡ true)
        × NoneBefore uri tokens n
  unfolding first_token
  first_token-some uri [] token h = cc
  first_token-some uri (x ∷ tokens) token h = elim (Bool-cases (M.match uri (pattern x))) [
    | inl hit ↦
        let same : x ≡ token = ground arith in
        (
          0,
          ap some same,
          subst (λ z. M.match uri (pattern z) ≡ true) same hit,
          λ m t lt. absurd (omega arith),
        )
    | inr miss ↦
        let (n, at, hit, before) = first_token-some uri tokens token (ground arith) in
        (suc n, at, hit, NoneBefore-cons uri x tokens n miss before)
  ]

  first_token-none :
      (uri : CString) (tokens : List Token)
      → first_token M uri tokens ≡ none
      → NoneBefore uri tokens (length tokens)
  unfolding first_token
  first_token-none uri [] h = λ m t lt. absurd (omega arith)
  first_token-none uri (x ∷ tokens) h = elim (Bool-cases (M.match uri (pattern x))) [
    | inl hit ↦ absurd (ground arith)
    | inr miss ↦
        NoneBefore-cons uri x tokens (length tokens) miss
          (first_token-none uri tokens (ground arith))
  ]

  -- Every HTTP message gets one reply, with the code and the headers, and printed with the message
  -- as the format, that come from the callback of the first token whose pattern matches the URI,
  -- for a URI under /api/, and else "Unknown API" with code 400.
  pub on_http_msg-answers :
      (s : Server) (now : ℕ) (uri body method : CString)
      → (((M.match uri (codes "/api/#") ≡ false) ⊎ NoneBefore uri s.tokens (length s.tokens))
          × ((on_http_msg M s now uri body method).replies ≡ http_reply M unknown_api ∷ s.replies))
        ⊎ ((n : ℕ) × (token : Token) × (M.match uri (codes "/api/#") ≡ true)
            × (get_elem? s.tokens n ≡ some token)
            × (M.match uri (pattern token) ≡ true)
            × NoneBefore uri s.tokens n
            × ((on_http_msg M s now uri body method).replies
                ≡ http_reply M (M.run token.cb uri body (get_method M method)) ∷ s.replies))
  unfolding on_http_msg
  on_http_msg-answers s now uri body method = elim (Bool-cases (M.match uri (codes "/api/#"))) [
    | inr other ↦ inl (inl other, rw other refl)
    | inl api ↦ elim (Option-cases (first_token M uri s.tokens)) [
      | inl nobody ↦ inl (inr (first_token-none uri s.tokens nobody), rw (api, nobody) refl)
      | inr (token, somebody) ↦
          let (n, at, hit, before) = first_token-some uri s.tokens token somebody in
          inr (n, token, api, at, hit, before, rw (api, somebody) refl)
    ]
  ]

  -- After a message at a tick that is not 0, the client counts as connected exactly for less than
  -- 5000 ms, also where the 32-bit tick count goes round, up to 2^32 ticks later.
  pub is_client_connected-within :
      (s : Server) (now elapsed : ℕ) (uri body method : CString)
      → now ≢ 0
      → now < 2 ^ 32
      → elapsed < 2 ^ 32
      → (is_client_connected M (on_http_msg M s now uri body method) ((now + elapsed) % 2 ^ 32)
          ≡ true)
        ↔ (M.to_ms elapsed < connection_timeout)
  unfolding is_client_connected on_http_msg
  is_client_connected-within s now elapsed uri body method some_now small near =
      let back : ((now + elapsed) % 2 ^ 32 + 2 ^ 32 - now) % 2 ^ 32 ≡ elapsed = omega arith in
      rw back (λ h. ground arith, λ h. ground arith)
