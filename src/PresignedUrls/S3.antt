-- ===== src/PresignedUrls/S3.antt =====
-- s3-presigned-url-attributor.ts and presigned-url-attributor.ts: the attribution of a span.
pub mod Hosts
use aws_otel_js_instrumentat.Prelude.{
  ℕ, Bool, true, false, not, ◌&&◌, ◌||◌, Option, none, some, List, [], ◌∷◌, ◌++◌, map, Text, codes,
  ◌==◌, text_test, nat_beq, leb, ltb, all, length, keep_if, is_empty, is_present, if_present, split,
  join, starts_with, drop, or_else, get_elem?, ◌>>=◌, ◌+◌, if◌then◌else◌,
}
use aws_otel_js_instrumentat.Spans.Model.{Span, Platform}
use aws_otel_js_instrumentat.Spans.Operation.{unknown_remote_operation}
use aws_otel_js_instrumentat.PresignedUrls.Parser.{PresignedAwsUrl, parse_span}
use aws_otel_js_instrumentat.PresignedUrls.Endpoint.{
  is_path_style, has_object_key, get_path_style_bucket, get_virtual_hosted_style_bucket,
}
use aws_otel_js_instrumentat.PresignedUrls.Operation.{operation_of_method}

pub record PresignedUrlAttribution : Type 0 where
  pub remote_service : Text
  pub remote_operation : Text
  -- the type and the identifier of the resource
  pub remote_resource : Option (Text × Text)

module _ (p : Platform) where
  operation_for : PresignedAwsUrl → Bool → Option Text → Text
  operation_for url path_style none = unknown_remote_operation
  operation_for url path_style (some http_method) =
      operation_of_method url (p.to_upper_case http_method) (has_object_key url path_style)

  unfoldable pub get_remote_operation : PresignedAwsUrl → Bool → Text
  unfolding operation_for
  get_remote_operation url path_style = operation_for url path_style url.http_method

  attribution_for : PresignedAwsUrl → Bool → Option Text → PresignedUrlAttribution
  attribution_for url path_style bucket = record {
    remote_service = codes "AWS::S3";
    remote_operation = get_remote_operation url path_style;
    remote_resource = if_present (λ (b : Text). (codes "AWS::S3::Bucket", b)) bucket;
  }

  -- Below a host that is no endpoint by itself.
  virtual_hosted : PresignedAwsUrl → Option Text → Option PresignedUrlAttribution
  unfolding attribution_for
  virtual_hosted url none = none
  virtual_hosted url (some bucket) = some (attribution_for url false (some bucket))

  unfoldable pub attribute_s3 : PresignedAwsUrl → Option PresignedUrlAttribution
  unfolding virtual_hosted attribution_for
  attribute_s3 url =
      if is_path_style url.host
      then some (attribution_for url true (get_path_style_bucket url))
      else virtual_hosted url (get_virtual_hosted_style_bucket url.host)

  -- `PresignedUrlAttributor.attribute`
  unfoldable pub attribute : Span → Option PresignedUrlAttribution
  attribute span = do url ← parse_span p span; attribute_s3 url
