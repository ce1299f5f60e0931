-- ===== src/Router/Privacy.antt =====
-- vad/router/privacy.py: what a provider's payload shows once it is redacted.
pub mod Hidden
use verified_agentic_develop.Prelude.{String, List, [], ◌∷◌, Bool, true, ◌≡◌, if◌then◌else◌, elem}

-- a payload's value: a text, a list, a dict in the order of its keys, or another value (`S`)
mutual
  pub data Value (S : Type 0) : Type 0 where
    text : String → Value S
    other : S → Value S
    sequence : Items S → Value S
    dict : Fields S → Value S

  pub data Items (S : Type 0) : Type 0 where
    nil : Items S
    item : Value S → Items S → Items S

  pub data Fields (S : Type 0) : Type 0 where
    end : Fields S
    field : String → Value S → Fields S → Fields S

abbrev sensitive_keys : List String
sensitive_keys =
    "prompt" ∷ "input" ∷ "message" ∷ "messages" ∷ "content" ∷ "api_key" ∷ "secret" ∷ "token" ∷ []

-- `lower` stands for `str.lower`
unfoldable pub is_sensitive : (lower : String → String) → String → Bool
is_sensitive lower key = elem (lower key) sensitive_keys

module _ (lower : String → String) {S : Type 0} where
  unfoldable mutual
    unfolding is_sensitive

    pub redact : Value S → Value S
    redact (text t) = text t
    redact (other s) = other s
    redact (sequence items) = sequence (redact_items items)
    redact (dict fields) = dict (redact_fields fields)

    pub redact_items : Items S → Items S
    redact_items nil = nil
    redact_items (item v rest) = item (redact v) (redact_items rest)

    pub redact_fields : Fields S → Fields S
    redact_fields end = end
    redact_fields (field key v rest) =
        let inner = redact v in
        field key (if is_sensitive lower key then text "[redacted]" else inner) (redact_fields rest)

  unfoldable pub redact_provider_payload : Fields S → Fields S
  redact_provider_payload payload = redact_fields payload

  -- `digest` stands for the sorted dump of the payload and the SHA-256 of its bytes
  unfoldable pub redaction_digest : (digest : Fields S → String) → Fields S → String
  redaction_digest digest payload = digest (redact_provider_payload payload)
