-- ===== src/Tests/Privacy.antt =====
-- Redaction at concrete payloads.
use verified_agentic_develop.Prelude.{ℕ, String, ◌≡◌, ◌↔◌, refl, elem}
use verified_agentic_develop.Router.Privacy.{
  Fields, end, field, text, other, sequence, item, nil, dict, redact_provider_payload, redact,
  is_sensitive,
}
use verified_agentic_develop.Router.Privacy.Hidden.{
  AreAlikeFields, redact_provider_payload-equal_iff,
}

-- texts in lower case
abbrev lower : String → String
lower t = t

abbrev payload_of : String → Fields ℕ
payload_of secret = field "model" (text "small") (
    field "prompt" (text secret)
      (field "options" (dict (field "limits" (sequence (item (other 3) nil)) end)) end))

redacted : redact_provider_payload lower (payload_of "hello") ≡ payload_of "[redacted]"
unfolding redact_provider_payload redact is_sensitive elem
redacted = refl

redact_provider_payload-equal_iff_example :
    (redact_provider_payload lower (payload_of "hello")
      ≡ redact_provider_payload lower (payload_of "bye"))
    ↔ AreAlikeFields lower (payload_of "hello") (payload_of "bye")
redact_provider_payload-equal_iff_example =
    redact_provider_payload-equal_iff lower (payload_of "hello") (payload_of "bye")
