-- ===== src/Protocols/MqttApp/Deliver.antt =====
-- Who gets a message, and what a new connection subscribes to, in src/protocols/mqtt_app.c.
use hq_platform.Base.{
  ℕ, zero, suc, ◌+◌, ◌<◌, ◌≡◌, refl, sym, subst, length, ◌⊎◌, ◌∙◌, inl, inr, true, ◌&&◌, List, [],
  ◌∷◌, Option, none, some, arith, take, get_elem?, if◌then◌else◌, Bool-cases, Option-cases,
}
use hq_platform.Base.Text.{CString, str_eq, str_eq-eq}
use hq_platform.Protocols.MqttApp.{
  App, Subscription, Call, emit, mqtt_sub, deliver, find_from, find_subscription, resubscribe,
}
use hq_platform.Protocols.MqttApp.Connection.{
  Mongoose, connected, first_match, handle_message, until_nul,
}
use hq_platform.Protocols.MqttApp.Invariant.{Fresh, Distinct, IsValid}

-- How often the topic was subscribed to.
abbrev pub requests : CString → List Call → ℕ
requests topic [] = 0
requests topic (mqtt_sub t qos ∷ log) = (if str_eq t topic then 1 else 0) + requests topic log
requests topic (_ ∷ log) = requests topic log

abbrev pub found : Option ℕ → ℕ
found none = 0
found (some i) = 1

resubscribe-requests :
    (topic : CString) (subs : List Subscription) (s : App)
    → Fresh topic subs
    → requests topic (resubscribe subs s).log ≡ requests topic s.log
unfolding resubscribe
resubscribe-requests topic [] s h = refl
resubscribe-requests topic (x ∷ subs) s h =
    resubscribe-requests topic subs (if x.active then emit (mqtt_sub x.topic 0) s else s) h.1 ∙ same
  where
    same :
        requests topic (if x.active then emit (mqtt_sub x.topic 0) s else s).log
        ≡ requests topic s.log
    same = elim (Bool-cases x.active) [
      | inr unused ↦ simp unused refl
      | inl used ↦ elim (Bool-cases (str_eq x.topic topic)) [
        | inl eq ↦ absurd (h.0 used (str_eq-eq x.topic topic eq))
        | inr ne ↦ ground arith
      ]
    ]

Fresh-not_found :
    (topic : CString) (subs : List Subscription) (k : ℕ)
    → Fresh topic subs
    → find_from subs topic k ≡ none
unfolding find_from
Fresh-not_found topic [] k h = refl
Fresh-not_found topic (x ∷ subs) k h =
    let rest = Fresh-not_found topic subs (k + 1) h.1 in
    elim (Bool-cases x.active) [
      | inr unused ↦ simp unused rest
      | inl used ↦ elim (Bool-cases (str_eq x.topic topic)) [
        | inl eq ↦ absurd (h.0 used (str_eq-eq x.topic topic eq))
        | inr ne ↦ ground arith
      ]
    ]

-- Of a table without repeated topics, each topic once.
resubscribe-once :
    (topic : CString) (subs : List Subscription) (k : ℕ) (s : App)
    → Distinct subs
    → requests topic (resubscribe subs s).log
      ≡ found (find_from subs topic k) + requests topic s.log
unfolding resubscribe find_from
resubscribe-once topic [] k s h = omega arith
resubscribe-once topic (x ∷ subs) k s h = elim (Bool-cases (x.active && str_eq x.topic topic)) [
  | inl here ↦
      let used : x.active ≡ true = ground arith in
      let fresh : Fresh topic subs =
        subst (λ z. Fresh z subs) (str_eq-eq x.topic topic (ground arith)) (h.0 used) in
      let rest =
        resubscribe-requests topic subs (if x.active then emit (mqtt_sub x.topic 0) s else s)
          fresh in
      ground arith
  | inr other ↦
      let rest =
        resubscribe-once topic subs (k + 1) (if x.active then emit (mqtt_sub x.topic 0) s else s)
          h.1 in
      ground arith
]

module _ (M : Mongoose) where
  -- On a valid client, a new connection subscribes to each topic that is in the table once, and to
  -- no other.
  pub connected-resubscribes :
      (s : App) (topic : CString)
      → IsValid s
      → requests topic (connected M s).log
        ≡ found (find_subscription s topic) + requests topic s.log
  unfolding connected
  connected-resubscribes s topic v =
      resubscribe-once topic s.subscriptions 0 _ v.distinct ∙ ground arith

  -- The subscription at index `i` gets a message on the topic, with the callback.
  abbrev pub Takes : CString → Subscription → ℕ → Type 0
  Takes topic sub callback =
      (sub.active ≡ true) × (sub.callback ≡ some callback) × (M.match topic sub.topic ≡ true)

  -- No subscription before index `n` gets it.
  abbrev pub NoneBefore : CString → List Subscription → ℕ → Type 0
  NoneBefore topic subs n =
      (m : ℕ) (sub : Subscription) (other : ℕ)
      → m < n
      → get_elem? subs m ≡ some sub
      → ¬ Takes topic sub other

  NoneBefore-cons :
      (topic : CString) (x : Subscription) (subs : List Subscription) (n : ℕ)
      → ((other : ℕ) → ¬ Takes topic x other)
      → NoneBefore topic subs n
      → NoneBefore topic (x ∷ subs) (suc n)
  NoneBefore-cons topic x subs n h k zero sub other lt e t =
      let same : sub ≡ x = cc in h other (subst (λ z. Takes topic z other) same t)
  NoneBefore-cons topic x subs n h k (suc m) sub other lt e t = k m sub other (omega arith) e t

  -- The first subscription is taken, or the search goes on behind it.
  first_match-cases :
      (topic : CString) (x : Subscription) (subs : List Subscription)
      → ((callback : ℕ) × Takes topic x callback × (first_match M topic (x ∷ subs) ≡ some callback))
        ⊎ (((other : ℕ) → ¬ Takes topic x other)
            × (first_match M topic (x ∷ subs) ≡ first_match M topic subs))
  unfolding first_match
  first_match-cases topic x subs = elim (Option-cases x.callback) [
    | inl none_set ↦ inr (λ other t. cc t.1, ground arith)
    | inr (callback, is_set) ↦ elim (Bool-cases (x.active && M.match topic x.topic)) [
      | inl taken ↦ inl (callback, (ground arith, is_set, ground arith), ground arith)
      | inr not_taken ↦ inr (λ other t. ground arith, ground arith)
    ]
  ]

  first_match-some :
      (topic : CString) (subs : List Subscription) (callback : ℕ)
      → first_match M topic subs ≡ some callback
      → (n : ℕ) × (sub : Subscription) × (get_elem? subs n ≡ some sub)
        × Takes topic sub callback
        × NoneBefore topic subs n
  unfolding first_match
  first_match-some topic [] callback h = cc
  first_match-some topic (x ∷ subs) callback h = elim (first_match-cases topic x subs) [
    | inl (c, takes, here) ↦ (
      0,
      x,
      refl,
      subst (Takes topic x) (ground arith) takes,
      λ m sub other lt. absurd (omega arith),
    )
    | inr (not_here, later) ↦
        let (n, sub, at, takes, before) = first_match-some topic subs callback (sym later ∙ h) in
        (suc n, sub, at, takes, NoneBefore-cons topic x subs n not_here before)
  ]

  first_match-none :
      (topic : CString) (subs : List Subscription)
      → first_match M topic subs ≡ none
      → NoneBefore topic subs (length subs)
  unfolding first_match
  first_match-none topic [] h = λ m sub other lt. absurd (omega arith)
  first_match-none topic (x ∷ subs) h = elim (first_match-cases topic x subs) [
    | inl (c, takes, here) ↦ absurd (ground arith)
    | inr (not_here, later) ↦
        NoneBefore-cons topic x subs (length subs) not_here
          (first_match-none topic subs (sym later ∙ h))
  ]

  -- A message goes to exactly one callback, that of the first active subscription that has one and
  -- whose filter matches the topic, and to none if there is no such subscription.
  pub handle_message-delivers :
      (topic bytes : List ℕ) (s : App)
      → let text = until_nul (take 128 topic) in
        (((handle_message M topic bytes s).log ≡ s.log)
          × NoneBefore text s.subscriptions (length s.subscriptions))
        ⊎ ((callback : ℕ) × (n : ℕ) × (sub : Subscription) × ((handle_message M topic bytes s).log
              ≡ deliver callback text bytes ∷ s.log)
            × (get_elem? s.subscriptions n ≡ some sub)
            × Takes text sub callback
            × NoneBefore text s.subscriptions n)
  unfolding handle_message
  handle_message-delivers topic bytes s =
      let text = until_nul (take 128 topic) in
      elim (Option-cases (first_match M text s.subscriptions)) [
        | inl nobody ↦ inl (ground arith, first_match-none text s.subscriptions nobody)
        | inr (callback, somebody) ↦
            let (n, sub, at, takes, before) =
              first_match-some text s.subscriptions callback somebody in
            inr (callback, n, sub, ground arith, at, takes, before)
      ]
