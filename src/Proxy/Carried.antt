-- ===== src/Proxy/Carried.antt =====
-- The text that is sent carries the text that was read.
use taproot_assets_rest_gate.Prelude.{
  Text, Option, none, some, inl, inr, refl, Bool-cases, Option-cases,
}
use taproot_assets_rest_gate.Json.{Serde}
use taproot_assets_rest_gate.Correlation.{
  CorrelationTracker, inject_correlation_id, is_request_message, generate_correlation_id,
}
use taproot_assets_rest_gate.Proxy.{Moment, epoch_millis}
use taproot_assets_rest_gate.Proxy.Frames.{
  BackendMessage, outgoing, correlate_request, note_request, final_message,
}
use taproot_assets_rest_gate.Proxy.Spec.{Carries}

correlate_request-Carries :
    (s : Serde) (at : Moment) (t : Text) (c : CorrelationTracker)
    → Carries s (BackendMessage.text (correlate_request s at t c).1) (BackendMessage.text t)
unfolding correlate_request note_request
correlate_request-Carries s at t c =
    let id : Text = (generate_correlation_id (epoch_millis at) c).1 in
    elim (Option-cases (inject_correlation_id s t id)) [
      | inl e ↦ rw e (inl refl)
      | inr (m, e) ↦ rw e (inr (t, id, m, refl, refl, e))
    ]

outgoing-Carries :
    (s : Serde) (at : Moment) (t : Text) (c : CorrelationTracker)
    → Carries s (BackendMessage.text (outgoing s at t c).1) (BackendMessage.text t)
unfolding outgoing
outgoing-Carries s at t c = elim (Bool-cases (is_request_message s t)) [
  | inl y ↦ rw y (correlate_request-Carries s at t c)
  | inr n ↦ rw n (inl refl)
]

pub final_message-Carries :
    (s : Serde) (at : Moment) (t : Text) (c : Option CorrelationTracker)
    → Carries s (BackendMessage.text (final_message s at t c).1) (BackendMessage.text t)
final_message-Carries s at t none = inl refl
final_message-Carries s at t (some c) = outgoing-Carries s at t c
