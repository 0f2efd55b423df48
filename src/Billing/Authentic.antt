-- ===== src/Billing/Authentic.antt =====
-- Deliveries that are not from the provider (src/casino_bot/billing/providers/stripe_adapter.py,
-- src/casino_bot/billing/api_v1.py).
use Prim.Native.String.{String, ◌++◌ as str_append}
use casino_bot.Prelude.{
  ℤ, ◌-ℤ◌, ◌≤ℤ◌, ◌≡◌, refl, ap, ◌∙◌, inl, inr, ◌⊎◌, false, str_eq, eq_iff, Option, none, some,
  arith, Option-cases,
}
use mathlib.Core.List.{◌∷◌}
use casino_bot.Python.{Error, ok, err, Result-cases}
use casino_bot.Python.Text.{parse_int}
use casino_bot.Settings.{Settings}
use casino_bot.Database.{Session}
use casino_bot.Billing.Signatures.{
  Headers, last_value, given, abs, header_or_empty, split_commas, signature_parts, check_digest,
  check_parts, verify_stripe_signature,
}
use casino_bot.Billing.Providers.{provider_adapter, stripe_adapter, parse_and_verify_webhook}
use casino_bot.Billing.Routes.{Delivery, take_delivery, billing_webhook}

-- The dictionary of the signature header.
abbrev pub header_parts : Headers → Headers
header_parts headers =
    let items = split_commas (header_or_empty "stripe-signature" headers) in
    signature_parts (items.0 ∷ items.1)

-- The header carries a time stamp that is recent, and the keyed digest of it and of the body.
pub record IsSigned (settings : Settings) (d : Delivery) : Type 0 where
  pub timestamp : String
  pub sent_at : ℤ
  pub signature : String
  pub has_timestamp : last_value "t" (header_parts d.headers) ≡ some timestamp
  pub has_signature : last_value "v1" (header_parts d.headers) ≡ some signature
  pub is_number : parse_int timestamp ≡ some sent_at
  pub recent : abs (d.now -ℤ sent_at) ≤ℤ settings.billing.webhook_tolerance_seconds
  pub digest :
      d.hmac settings.billing.stripe_webhook_secret
        (str_append timestamp (str_append "." d.body.bytes))
      ≡ signature
  pub configured : str_eq settings.billing.stripe_webhook_secret "" ≡ false

given-some : (o : Option String) {s : String} → given o ≡ some s → o ≡ some s
given-some none h = h
given-some (some t) h = ground (arith, h)

module _ (settings : Settings) (d : Delivery) where
  verified-IsSigned :
      verify_stripe_signature settings d.hmac d.now d.headers d.body.bytes ≡ ok tt
      → IsSigned settings d
  unfolding verify_stripe_signature check_parts check_digest
  verified-IsSigned h = elim (Option-cases (given (last_value "t" (header_parts d.headers)))) [
    | inl e ↦ absurd (ground (arith, e, h))
    | inr (ts, et) ↦ elim (Option-cases (given (last_value "v1" (header_parts d.headers)))) [
      | inl e ↦ absurd (ground (arith, e, et, h))
      | inr (signature, es) ↦ elim (Option-cases (parse_int ts)) [
        | inl e ↦ absurd (ground (arith, e, es, et, h))
        | inr (sent_at, en) ↦ record {
          timestamp = ts;
          sent_at = sent_at;
          signature = signature;
          has_timestamp = given-some _ et;
          has_signature = given-some _ es;
          is_number = en;
          recent = ground (arith, et, es, en, h);
          digest =
              (eq_iff
                  (d.hmac settings.billing.stripe_webhook_secret
                    (str_append ts (str_append "." d.body.bytes)))
                  signature).0
                (ground (arith, et, es, en, h));
          configured = ground (arith, h);
        }
      ]
    ]
  ]

  stripe-refuses :
      (s : Session) {e : Error}
      → verify_stripe_signature settings d.hmac d.now d.headers d.body.bytes ≡ err e
      → take_delivery settings d (some stripe_adapter) s ≡ (err e, s)
  unfolding take_delivery stripe_adapter parse_and_verify_webhook
  stripe-refuses s h = rw h refl

  webhook-take :
      (s : Session)
      → d.provider ≡ "stripe"
      → billing_webhook settings d s ≡ take_delivery settings d (some stripe_adapter) s
  unfolding billing_webhook provider_adapter
  webhook-take s p = ap (λ name. take_delivery settings d (provider_adapter name) s) p

  -- A delivery to the address of Stripe either carries a recent time stamp and the digest of it and
  -- of the body under the secret, which is configured, or it is refused with an error and changes
  -- no table.
  pub authentic_or_refused :
      (s : Session)
      → d.provider ≡ "stripe"
      → IsSigned settings d ⊎ ((e : Error) × (billing_webhook settings d s ≡ (err e, s)))
  authentic_or_refused s p =
      elim (Result-cases (verify_stripe_signature settings d.hmac d.now d.headers d.body.bytes)) [
        | inl (u, o) ↦ inl (verified-IsSigned o)
        | inr (x, o) ↦ inr (x, webhook-take s p ∙ stripe-refuses s o)
      ]
