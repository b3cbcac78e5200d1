-- ===== src/Webhook/Redaction.antt =====
-- `_redact_payload` of app/services/webhook_service.py, over JSON values: what it masks, and that
-- nothing of what it masks is left.
use noc_iq_be.Prelude.{
  ℕ, ◌+◌, ◌≤◌, String, ◌≡◌, refl, inl, inr, Bool, true, List, arith, ltb, if◌then◌else◌, Bool-cases,
}
use noc_iq_be.Prelude.Text.{lower}
use noc_iq_be.Bridge.Guard.{is_in}

mutual
  pub data Json : Type 0 where
    null : Json
    bool : Bool → Json
    number : String → Json
    text : String → Json
    arr : Items → Json
    obj : Members → Json

  pub data Items : Type 0 where
    nil : Items
    item : Json → Items → Items

  pub data Members : Type 0 where
    end : Members
    member : String → Json → Members → Members

pub record RedactionSettings : Type 0 where
  pub enabled : Bool
  pub fields : List String
  pub mask : String

abbrev pub max_depth : ℕ
max_depth = 10

module _ (settings : RedactionSettings) where
  unfoldable mutual
    pub redact : ℕ → Json → Json
    redact depth (obj ms) =
        let masked = obj (redact_members (depth + 1) ms) in
        if ltb max_depth depth then obj ms else masked
    redact depth (arr xs) =
        let masked = arr (redact_items (depth + 1) xs) in
        if ltb max_depth depth then arr xs else masked
    redact depth null = null
    redact depth (bool b) = bool b
    redact depth (number n) = number n
    redact depth (text s) = text s

    pub redact_items : ℕ → Items → Items
    redact_items depth nil = nil
    redact_items depth (item x xs) = item (redact depth x) (redact_items depth xs)

    pub redact_members : ℕ → Members → Members
    redact_members depth end = end
    redact_members depth (member k v ms) =
        let masked = redact depth v in
        member k (if is_in (lower k) settings.fields then text settings.mask else masked)
          (redact_members depth ms)

  unfoldable pub redact_payload : Json → Json
  redact_payload data' = if settings.enabled then redact 0 data' else data'

-- Values that differ in what is masked alone: under a redacted name there may be any two values. A
-- value deeper than the code looks is not masked.
module _ (settings : RedactionSettings) where
  mutual
    pub data Alike : ℕ → Json → Json → Type 0 where
      same : {depth : ℕ} {j : Json} → Alike depth j j
      objects :
          {depth : ℕ} {ms ns : Members}
          → depth ≤ max_depth
          → AlikeMembers (depth + 1) ms ns
          → Alike depth (obj ms) (obj ns)
      arrays :
          {depth : ℕ} {xs ys : Items}
          → depth ≤ max_depth
          → AlikeItems (depth + 1) xs ys
          → Alike depth (arr xs) (arr ys)

    pub data AlikeItems : ℕ → Items → Items → Type 0 where
      no_items : {depth : ℕ} → AlikeItems depth nil nil
      items :
          {depth : ℕ} {x y : Json} {xs ys : Items}
          → Alike depth x y
          → AlikeItems depth xs ys
          → AlikeItems depth (item x xs) (item y ys)

    pub data AlikeMembers : ℕ → Members → Members → Type 0 where
      no_members : {depth : ℕ} → AlikeMembers depth end end
      secret :
          {depth : ℕ} {k : String} {v w : Json} {ms ns : Members}
          → is_in (lower k) settings.fields ≡ true
          → AlikeMembers depth ms ns
          → AlikeMembers depth (member k v ms) (member k w ns)
      open_member :
          {depth : ℕ} {k : String} {v w : Json} {ms ns : Members}
          → Alike depth v w
          → AlikeMembers depth ms ns
          → AlikeMembers depth (member k v ms) (member k w ns)

mutual
  unfolding redact redact_items redact_members

  redact-Alike :
      (settings : RedactionSettings) {depth : ℕ} {j k : Json}
      → Alike settings depth j k
      → redact settings depth j ≡ redact settings depth k
  redact-Alike settings same = refl
  redact-Alike settings (objects {depth} {ms} {ns} d h) =
      ground (arith, redact_members-Alike settings h)
  redact-Alike settings (arrays d h) = ground (arith, redact_items-Alike settings h)

  redact_items-Alike :
      (settings : RedactionSettings) {depth : ℕ} {xs ys : Items}
      → AlikeItems settings depth xs ys
      → redact_items settings depth xs ≡ redact_items settings depth ys
  redact_items-Alike settings no_items = refl
  redact_items-Alike settings (items h hs) =
      rw (redact-Alike settings h, redact_items-Alike settings hs) refl

  redact_members-Alike :
      (settings : RedactionSettings) {depth : ℕ} {ms ns : Members}
      → AlikeMembers settings depth ms ns
      → redact_members settings depth ms ≡ redact_members settings depth ns
  redact_members-Alike settings no_members = refl
  redact_members-Alike settings (secret e hs) = rw (e, redact_members-Alike settings hs) refl
  redact_members-Alike settings (open_member h hs) =
      rw (redact-Alike settings h, redact_members-Alike settings hs) refl

-- Nothing of a masked value is left in a redacted payload: two payloads that differ under redacted
-- names alone, down to the depth that the code walks, are redacted to one.
pub redact_payload-Alike :
    (settings : RedactionSettings) (j k : Json)
    → settings.enabled ≡ true
    → Alike settings 0 j k
    → redact_payload settings j ≡ redact_payload settings k
unfolding redact_payload redact
redact_payload-Alike settings j k e h = rw e (redact-Alike settings h)

mutual
  unfolding redact redact_items redact_members

  redact-twice :
      (settings : RedactionSettings) (depth : ℕ) (j : Json)
      → redact settings depth (redact settings depth j) ≡ redact settings depth j
  redact-twice settings depth (obj ms) = elim (Bool-cases (ltb max_depth depth)) [
    | inl e ↦ rw e (rw e refl)
    | inr e ↦ rw e (rw (e, redact_members-twice settings (depth + 1) ms) refl)
  ]
  redact-twice settings depth (arr xs) = elim (Bool-cases (ltb max_depth depth)) [
    | inl e ↦ rw e (rw e refl)
    | inr e ↦ rw e (rw (e, redact_items-twice settings (depth + 1) xs) refl)
  ]
  redact-twice settings depth null = refl
  redact-twice settings depth (bool b) = refl
  redact-twice settings depth (number n) = refl
  redact-twice settings depth (text s) = refl

  redact_items-twice :
      (settings : RedactionSettings) (depth : ℕ) (xs : Items)
      → redact_items settings depth (redact_items settings depth xs)
        ≡ redact_items settings depth xs
  redact_items-twice settings depth nil = refl
  redact_items-twice settings depth (item x xs) =
      rw (redact-twice settings depth x, redact_items-twice settings depth xs) refl

  redact_members-twice :
      (settings : RedactionSettings) (depth : ℕ) (ms : Members)
      → redact_members settings depth (redact_members settings depth ms)
        ≡ redact_members settings depth ms
  redact_members-twice settings depth end = refl
  redact_members-twice settings depth (member k v ms) =
      elim (Bool-cases (is_in (lower k) settings.fields)) [
        | inl e ↦ rw (e, redact_members-twice settings depth ms) refl
        | inr e ↦ rw (e, redact-twice settings depth v, redact_members-twice settings depth ms) refl
      ]

-- To redact a payload again changes nothing.
pub redact_payload-twice :
    (settings : RedactionSettings) (j : Json)
    → redact_payload settings (redact_payload settings j) ≡ redact_payload settings j
unfolding redact_payload
redact_payload-twice settings j = elim (Bool-cases settings.enabled) [
  | inl e ↦ simp (e, redact-twice settings 0 j)
  | inr e ↦ simp e
]
