-- ===== src/PresignedUrls/Tests.antt =====
-- A presigned request to a bucket, and its query.
use aws_otel_js_instrumentat.Prelude.{
  true, some, List, [], ◌∷◌, Text, codes, map, text_test, starts_with, if_present, ◌+◌, ◌-◌, ◌≡◌,
  refl,
}
use aws_otel_js_instrumentat.Spans.Model.{Platform}
use aws_otel_js_instrumentat.Spans.Sample.{platform}
use aws_otel_js_instrumentat.PresignedUrls.Parser.{PresignedAwsUrl}
use aws_otel_js_instrumentat.PresignedUrls.Endpoint.{is_bucket, is_label}
use aws_otel_js_instrumentat.PresignedUrls.Endpoint.Buckets.{regional_host}
use aws_otel_js_instrumentat.PresignedUrls.Operation.{operation_of_method}
use aws_otel_js_instrumentat.PresignedUrls.Operation.Levels.{is_name, operation_of_method-is_name}
use aws_otel_js_instrumentat.PresignedUrls.S3.{PresignedUrlAttribution, attribute_s3}
use aws_otel_js_instrumentat.PresignedUrls.S3.Hosts.{attribute_s3-regional_host}

abbrev encode : Text → Text
encode t = map (λ c. c + 100) t

abbrev shifted : Platform
shifted = record platform { decode_uri_component = λ t. some (map (λ c. c - 100) t) }

abbrev parameters : List (Text × Text)
parameters = (codes "acl", []) ∷ (codes "uploadId", codes "1") ∷ (codes "uploadId", codes "2") ∷ []

abbrev request : PresignedAwsUrl
request = record {
  host = regional_host (codes "my.bucket") (codes "eu-west-1");
  path = codes "/key";
  http_method = some (codes "GET");
  query_parameters = [];
}

attribute_s3-regional_host_example :
    if_present (λ (a : PresignedUrlAttribution). a.remote_resource) (attribute_s3 platform request)
    ≡ some (some (codes "AWS::S3::Bucket", codes "my.bucket"))
unfolding is_bucket is_label starts_with
attribute_s3-regional_host_example =
    attribute_s3-regional_host platform request (codes "my.bucket") (codes "eu-west-1") refl refl
      refl refl

operation_of_method-is_name_example :
    is_name true (operation_of_method request (codes "GET") true) ≡ true
operation_of_method-is_name_example = operation_of_method-is_name request (codes "GET") true
