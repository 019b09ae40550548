-- ===== src/MetricAttributes/Remote/Priority.antt =====
-- Which attributes name the remote service and operation.
use aws_otel_js_instrumentat.Prelude.{
  true, false, some, Text, ◌==◌, text_test, same_units_iff, ◌≡◌, ◌≢◌, refl, Bool-cases, inl, inr,
  String, arith,
}
use aws_otel_js_instrumentat.Spans.Model.{text, Span, Platform, as_text, get, is_key_present}
use aws_otel_js_instrumentat.MetricAttributes.Callee.{get_remote_service, get_remote_operation}
use aws_otel_js_instrumentat.MetricAttributes.Remote.{
  Remote, from_attributes, from_conventions, with_peer_service, with_service, with_operation,
  remote_service_and_operation,
}
use aws_otel_js_instrumentat.Spans.Operation.{unknown_remote_service, unknown_remote_operation}

differs : (s t : Text) → s ≢ t → s == t ≡ false
differs s t ne = elim (Bool-cases (s == t)) [
  | inl b ↦ absurd (ne ((same_units_iff s t).0 b))
  | inr b ↦ b
]

get-get_remote_service :
    (span : Span) (key : String) (service : Text)
    → get span key ≡ some (text service)
    → (get_remote_service span key ≡ service) × (is_key_present span key ≡ true)
unfolding get_remote_service as_text is_key_present
get-get_remote_service span key service h = rw h (refl, refl)

get-get_remote_operation :
    (span : Span) (key : String) (operation : Text)
    → get span key ≡ some (text operation)
    → get_remote_operation span key ≡ operation
unfolding get_remote_operation as_text
get-get_remote_operation span key operation h = rw h refl

module _ (p : Platform) where
  -- A remote service and operation given by hand are taken as they are, whatever else a span holds.
  pub manual_attributes_first :
      (span : Span) (service operation : Text)
      → get span "aws.remote.service" ≡ some (text service)
      → get span "aws.remote.operation" ≡ some (text operation)
      → service ≢ unknown_remote_service
      → operation ≢ unknown_remote_operation
      → ((remote_service_and_operation p span).service ≡ service)
        × ((remote_service_and_operation p span).operation ≡ operation)
  unfolding remote_service_and_operation from_attributes
  manual_attributes_first span service operation s o known known' = ground (
    arith,
    get-get_remote_service span "aws.remote.service" service s,
    get-get_remote_operation span "aws.remote.operation" operation o,
    differs service unknown_remote_service known,
    differs operation unknown_remote_operation known',
  )

  service_of_peer :
      (span : Span) (r : Remote) (service : Text)
      → is_key_present span "aws.remote.service" ≡ false
      → get span p.names.peer_service ≡ some (text service)
      → service ≢ unknown_remote_service
      → (with_operation p span (with_service p span (with_peer_service p span r))).service ≡ service
  unfolding with_operation with_service with_peer_service
  service_of_peer span r service absent s known = ground (
    arith,
    get-get_remote_service span p.names.peer_service service s,
    differs service unknown_remote_service known,
  )

  -- Without a remote service given by hand, the peer service names the remote service, whatever else
  -- a span holds.
  pub peer_service_next :
      (span : Span) (service : Text)
      → is_key_present span "aws.remote.service" ≡ false
      → get span p.names.peer_service ≡ some (text service)
      → service ≢ unknown_remote_service
      → (remote_service_and_operation p span).service ≡ service
  unfolding remote_service_and_operation
  peer_service_next span service absent s known =
      service_of_peer span (from_conventions p span) service absent s known
