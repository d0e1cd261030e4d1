-- ===== src/Payer/Output/Fenced.antt =====
-- packages/mcp-x402-payer/src/output.ts: renderUntrusted and sanitizeMetadata, which redact first.
use vellar_sdk.Prelude.{ℕ, Bool, List}
use vellar_sdk.RequestAuth.Compare.{Text}
use vellar_sdk.Untrusted.{SanitizeOptions, render_untrusted, sanitize_metadata}
use vellar_sdk.Payer.Output.{redact}

module _ (is_format is_dash : ℕ → Bool) (secrets : List Text) where
  unfoldable pub fenced : Text → Text → SanitizeOptions → Text → Text
  unfolding render_untrusted redact
  fenced label text opts nonce =
      render_untrusted is_format is_dash label (redact secrets text) opts nonce

  unfoldable pub redacted_metadata : Text → Text
  unfolding sanitize_metadata redact
  redacted_metadata text = sanitize_metadata is_format is_dash (redact secrets text)
