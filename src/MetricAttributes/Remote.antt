-- ===== src/MetricAttributes/Remote.antt =====
-- aws-metric-attribute-generator.ts: the remote service and operation of a call
-- (`setRemoteServiceAndOperation`).
pub mod Priority
use aws_otel_js_instrumentat.Prelude.{
  ℕ, Bool, true, false, not, ◌&&◌, ◌||◌, Option, none, some, List, [], ◌∷◌, ◌++◌, String, Text,
  codes, ◌==◌, text_test, nat_beq, leb, ltb, length, take, drop, is_empty, trim, trim_start,
  starts_with, lookup, get_last?, is_present, if_present, or_else, if◌then◌else◌,
}
use aws_otel_js_instrumentat.Spans.Model.{
  AttributeValue, Span, Url, Platform, as_text, is_text, is_truthy, to_text, get, is_key_present,
}
use aws_otel_js_instrumentat.Spans.Kinds.{is_aws_sdk_span, is_db_span}
use aws_otel_js_instrumentat.Spans.Operation.{
  extract_api_path_value, unknown_remote_service, unknown_remote_operation,
}
use aws_otel_js_instrumentat.PresignedUrls.S3.{PresignedUrlAttribution, attribute}
use aws_otel_js_instrumentat.MetricAttributes.Callee.{
  get_remote_service, get_remote_operation, get_db_statement_remote_operation,
  normalize_remote_service_name, generate_remote_operation, generate_remote_service,
}

-- The service and the operation so far, and the attribution that gave them.
pub record Remote : Type 0 where
  pub service : Text
  pub operation : Text
  pub attribution : Option PresignedUrlAttribution

from_attributes : Text → Text → Remote
from_attributes service operation = record {
  service = service;
  operation = operation;
  attribution = none;
}

from_attribution : Option PresignedUrlAttribution → Remote
unfolding from_attributes
from_attribution none = from_attributes unknown_remote_service unknown_remote_operation
from_attribution (some a) = record {
  service = a.remote_service;
  operation = a.remote_operation;
  attribution = some a;
}

-- `isPresignedUrlAttributionEnabled`
is_enabled : (Text → Text) → Option Text → Bool
is_enabled to_lower_case none = false
is_enabled to_lower_case (some setting) = to_lower_case (trim setting) == codes "true"

module _ (p : Platform) where
  db_operation : Span → Text
  db_operation span =
      if is_key_present span p.names.db_operation
      then get_remote_operation span p.names.db_operation
      else get_db_statement_remote_operation p span p.names.db_statement

  unfoldable pub from_conventions : Span → Remote
  unfolding from_attributes from_attribution db_operation is_enabled
  from_conventions span =
      if is_key_present span "aws.remote.service" || is_key_present span "aws.remote.operation"
      then from_attributes (get_remote_service span "aws.remote.service")
          (get_remote_operation span "aws.remote.operation")
      else if is_key_present span p.names.rpc_service || is_key_present span p.names.rpc_method
      then from_attributes
          (normalize_remote_service_name p span (get_remote_service span p.names.rpc_service))
          (get_remote_operation span p.names.rpc_method)
      else if is_db_span p span
      then from_attributes (get_remote_service span p.names.db_system) (db_operation span)
      else if is_key_present span p.names.faas_invoked_name
          || is_key_present span p.names.faas_trigger
      then from_attributes (get_remote_service span p.names.faas_invoked_name)
          (get_remote_operation span p.names.faas_trigger)
      else if is_key_present span p.names.messaging_system
          || is_key_present span p.names.messaging_operation
      then from_attributes (get_remote_service span p.names.messaging_system)
          (get_remote_operation span p.names.messaging_operation)
      else if is_key_present span "graphql.operation.type"
      then from_attributes (codes "graphql") (get_remote_operation span "graphql.operation.type")
      else if is_enabled p.to_lower_case p.presigned_url_attribution && not (is_aws_sdk_span p span)
      then from_attribution (attribute p span)
      else from_attributes unknown_remote_service unknown_remote_operation

  unfoldable pub with_peer_service : Span → Remote → Remote
  with_peer_service span r =
      if is_key_present span p.names.peer_service && not (is_key_present span "aws.remote.service")
      then record r { service = get_remote_service span p.names.peer_service }
      else r

  unfoldable pub with_service : Span → Remote → Remote
  with_service span r =
      if r.service == unknown_remote_service
      then record r { service = generate_remote_service p span }
      else r

  unfoldable pub with_operation : Span → Remote → Remote
  with_operation span r =
      if r.operation == unknown_remote_operation && not (is_present r.attribution)
      then record r { operation = generate_remote_operation p span }
      else r

  -- The values that `setRemoteServiceAndOperation` sets, and its result.
  unfoldable pub remote_service_and_operation : Span → Remote
  unfolding with_operation with_service with_peer_service from_conventions
  remote_service_and_operation span =
      with_operation span (with_service span (with_peer_service span (from_conventions span)))
