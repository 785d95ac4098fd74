-- ===== src/Examples/Correlations.antt =====
-- A pending request, and the identifiers in messages.
use taproot_assets_rest_gate.Prelude.{
  ◌+◌, ◌≤◌, ◌<◌, ◌≡◌, ◌↔◌, ascii, some, [], ◌∷◌, All, get, length, secs, refl, arith, text_key,
}
use taproot_assets_rest_gate.Correlation
use taproot_assets_rest_gate.Correlation.{
  CorrelationTracker, PendingRequest, add_pending_request, remove_pending_request,
  cleanup_expired_requests, pending_count, wrapped_text, inject_correlation_id,
  extract_correlation_id,
}
use taproot_assets_rest_gate.Correlation.Unique.{generated, Distinct, generated-Distinct}
use taproot_assets_rest_gate.Correlation.Cleanup.{cleanup_splits}
use taproot_assets_rest_gate.Correlation.Messages.{extract-inject}
use taproot_assets_rest_gate.Examples.Parts.{serde, serde_laws, read, write_value}

abbrev tracker : CorrelationTracker
tracker = Correlation.new (ascii "session")

generated-Distinct_example :
    Distinct (generated (5 ∷ 5 ∷ 4 ∷ []) (Correlation.new (ascii "session")))
generated-Distinct_example = generated-Distinct (ascii "session") (5 ∷ 5 ∷ 4 ∷ []) (omega arith)

abbrev request : PendingRequest
request = record {
  correlation_id = ascii "c1";
  original_message = ascii "m";
  sent_at = 7;
  client_session_id = ascii "session";
}

abbrev pending : CorrelationTracker
pending = record tracker { pending_requests = (ascii "c1", request) ∷ [] }

cleanup_splits_example :
    let (t', expired) = cleanup_expired_requests (secs 61) pending in
    ((get (ascii "c1") t'.pending_requests ≡ some request)
      ↔ ((get (ascii "c1") pending.pending_requests ≡ some request) × (secs 61 ≤ 7 + secs 60)))
    × All (λ old. old.sent_at + secs 60 < secs 61) expired
    × (length expired + pending_count t' ≡ 1)
unfolding get
cleanup_splits_example =
    cleanup_splits (secs 61) (ascii "c1") request pending
      (record { distinct = (refl, tt); keyed = (refl, tt) })

extract-inject_example :
    extract_correlation_id serde (write_value (wrapped_text (ascii "c1") []) []) ≡ some (ascii "c1")
unfolding inject_correlation_id read
extract-inject_example =
    extract-inject serde serde_laws [] (ascii "c1") (write_value (wrapped_text (ascii "c1") []) [])
      refl
