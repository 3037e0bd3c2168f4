-- ===== src/Protocols/MqttApp/Invariant.antt =====
-- The invariant of the table of subscriptions of src/protocols/mqtt_app.c.
use hq_platform.Base.{
  ℕ, zero, suc, ◌+◌, ◌≤◌, ◌≡◌, ◌≢◌, inl, inr, refl, sym, ap, ◌∙◌, subst, true, ◌&&◌, List, [], ◌∷◌,
  none, some, arith, length, set, get_elem?, length-set, if◌then◌else◌, Bool-cases,
}
use hq_platform.Base.Text.{CString, str_eq, str_eq_refl, str_eq-eq}
use hq_platform.Protocols.MqttApp.{
  App, Subscription, emit, empty_slot, find_from, put_subscription, clear_subscription, resubscribe,
  max_subscriptions, mqtt_sub,
}
use hq_platform.Protocols.MqttApp.Connection.{act}

-- A slot in use has a callback and a topic that fits its buffer.
pub record Sound (sub : Subscription) : Type 0 where
  pub fits : length sub.topic ≤ 127
  pub called : sub.active ≡ true → sub.callback ≢ none

abbrev pub AllSound : List Subscription → Type 0
AllSound [] = Unit {0}
AllSound (sub ∷ subs) = Sound sub × AllSound subs

-- No active subscription of the list has the topic.
abbrev pub Fresh : CString → List Subscription → Type 0
Fresh topic [] = Unit {0}
Fresh topic (sub ∷ subs) = (sub.active ≡ true → sub.topic ≢ topic) × Fresh topic subs

-- No two active subscriptions have the same topic.
abbrev pub Distinct : List Subscription → Type 0
Distinct [] = Unit {0}
Distinct (sub ∷ subs) = (sub.active ≡ true → Fresh sub.topic subs) × Distinct subs

pub record IsValid (s : App) : Type 0 where
  pub size : length s.subscriptions ≡ max_subscriptions
  pub sound : AllSound s.subscriptions
  pub distinct : Distinct s.subscriptions

pub AllSound-set :
    (subs : List Subscription) (i : ℕ) (sub : Subscription)
    → AllSound subs
    → Sound sub
    → AllSound (set subs i sub)
AllSound-set [] i sub h k = tt
AllSound-set (x ∷ subs) zero sub h k = (k, h.1)
AllSound-set (x ∷ subs) (suc i) sub h k = (h.0, AllSound-set subs i sub h.1 k)

Fresh-set :
    (topic : CString) (subs : List Subscription) (i : ℕ) (sub : Subscription)
    → Fresh topic subs
    → (sub.active ≡ true → sub.topic ≢ topic)
    → Fresh topic (set subs i sub)
Fresh-set topic [] i sub h k = tt
Fresh-set topic (x ∷ subs) zero sub h k = (k, h.1)
Fresh-set topic (x ∷ subs) (suc i) sub h k = (h.0, Fresh-set topic subs i sub h.1 k)

Distinct-set :
    (subs : List Subscription) (i : ℕ) (sub : Subscription)
    → Distinct subs
    → (sub.active ≡ true → Fresh sub.topic subs)
    → Distinct (set subs i sub)
Distinct-set [] i sub h k = tt
Distinct-set (x ∷ subs) zero sub h k = (λ a. (k a).1, h.1)
Distinct-set (x ∷ subs) (suc i) sub h k = (
  λ a. Fresh-set x.topic subs i sub (h.0 a) (λ b e. (k b).0 a (sym e)),
  Distinct-set subs i sub h.1 (λ a. (k a).1),
)

-- A topic that is not found is fresh.
pub find_from-Fresh :
    (subs : List Subscription) (topic : CString) (i : ℕ)
    → find_from subs topic i ≡ none
    → Fresh topic subs
unfolding find_from
find_from-Fresh [] topic i h = tt
find_from-Fresh (x ∷ subs) topic i h = elim (Bool-cases (x.active && str_eq x.topic topic)) [
  | inl here ↦ absurd (ground arith)
  | inr other ↦
      (λ a e. ground (arith, str_eq_refl topic), find_from-Fresh subs topic (i + 1) (ground arith))
]

-- A write that keeps the topic and the flag of the slot.
Fresh-set_same :
    (topic : CString) (subs : List Subscription) (i : ℕ) (old new : Subscription)
    → get_elem? subs i ≡ some old
    → new.topic ≡ old.topic
    → new.active ≡ old.active
    → Fresh topic subs
    → Fresh topic (set subs i new)
Fresh-set_same topic [] i old new e t a h = tt
Fresh-set_same topic (x ∷ subs) zero old new e t a h =
    let same : x ≡ old = cc in
    (
      λ act eq. h.0 (ap (λ y. y.active) same ∙ sym a ∙ act) (ap (λ y. y.topic) same ∙ sym t ∙ eq),
      h.1,
    )
Fresh-set_same topic (x ∷ subs) (suc i) old new e t a h =
    (h.0, Fresh-set_same topic subs i old new e t a h.1)

pub Distinct-set_same :
    (subs : List Subscription) (i : ℕ) (old new : Subscription)
    → get_elem? subs i ≡ some old
    → new.topic ≡ old.topic
    → new.active ≡ old.active
    → Distinct subs
    → Distinct (set subs i new)
Distinct-set_same [] i old new e t a h = tt
Distinct-set_same (x ∷ subs) zero old new e t a h =
    let same : x ≡ old = cc in
    (
      λ act.
          subst (λ z. Fresh z subs) (ap (λ y. y.topic) same ∙ sym t)
            (h.0 (ap (λ y. y.active) same ∙ sym a ∙ act)),
      h.1,
    )
Distinct-set_same (x ∷ subs) (suc i) old new e t a h = (
  λ act. Fresh-set_same x.topic subs i old new e t a (h.0 act),
  Distinct-set_same subs i old new e t a h.1,
)

pub AllSound-get :
    (subs : List Subscription) (i : ℕ) (sub : Subscription)
    → AllSound subs
    → get_elem? subs i ≡ some sub
    → Sound sub
AllSound-get [] i sub h e = cc
AllSound-get (x ∷ subs) zero sub h e = subst Sound (cc) h.0
AllSound-get (x ∷ subs) (suc i) sub h e = AllSound-get subs i sub h.1 e

-- The slot that is found is in the table, active, and has the topic.
pub find_from-get :
    (subs : List Subscription) (topic : CString) (i j : ℕ)
    → find_from subs topic i ≡ some j
    → (n : ℕ) × (sub : Subscription) × (j ≡ i + n)
      × (get_elem? subs n ≡ some sub)
      × (sub.active ≡ true)
      × (sub.topic ≡ topic)
unfolding find_from
find_from-get [] topic i j e = cc
find_from-get (x ∷ subs) topic i j e = elim (Bool-cases (x.active && str_eq x.topic topic)) [
  | inl here ↦ (0, x, ground arith, refl, ground arith, str_eq-eq x.topic topic (ground arith))
  | inr other ↦
      let (n, sub, at, found, act, same) = find_from-get subs topic (i + 1) j (ground arith) in
      (suc n, sub, omega arith, found, act, same)
]

pub put-IsValid :
    (s : App) (i : ℕ) (sub : Subscription)
    → Sound sub
    → (sub.active ≡ true → Fresh sub.topic s.subscriptions)
    → IsValid s
    → IsValid (put_subscription s i sub)
put-IsValid s i sub sound fresh v = record {
  size = length-set s.subscriptions i sub ∙ v.size;
  sound = AllSound-set s.subscriptions i sub v.sound sound;
  distinct = Distinct-set s.subscriptions i sub v.distinct fresh;
}

pub empty_slot-Sound : Sound empty_slot
empty_slot-Sound = record { fits = omega arith; called = λ a. cc }

pub clear-IsValid : (s : App) (i : ℕ) → IsValid s → IsValid (clear_subscription s i)
clear-IsValid s i v = put-IsValid s i empty_slot empty_slot-Sound (λ a. cc) v

-- A step that leaves the table alone.
pub same-IsValid : {s t : App} → t.subscriptions ≡ s.subscriptions → IsValid s → IsValid t
same-IsValid e v = record {
  size = ap length e ∙ v.size;
  sound = subst AllSound (sym e) v.sound;
  distinct = subst Distinct (sym e) v.distinct;
}

pub resubscribe-subscriptions :
    (subs : List Subscription) (s : App) → (resubscribe subs s).subscriptions ≡ s.subscriptions
unfolding resubscribe
resubscribe-subscriptions [] s = refl
resubscribe-subscriptions (x ∷ subs) s =
    resubscribe-subscriptions subs (if x.active then emit (mqtt_sub x.topic 0) s else s)
    ∙ ground arith
