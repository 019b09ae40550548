-- ===== src/PresignedUrls/S3/Hosts.antt =====
-- The resource of a request to a bucket's own host.
use aws_otel_js_instrumentat.Prelude.{
  true, false, some, Text, codes, starts_with, if_present, ◌≡◌, refl,
}
use aws_otel_js_instrumentat.Spans.Model.{Platform}
use aws_otel_js_instrumentat.PresignedUrls.Parser.{PresignedAwsUrl}
use aws_otel_js_instrumentat.PresignedUrls.Endpoint.{is_label, is_bucket}
use aws_otel_js_instrumentat.PresignedUrls.Endpoint.Buckets.{
  regional_host, is_path_style-regional_host, get_virtual_hosted_style_bucket_round_trip,
}
use aws_otel_js_instrumentat.PresignedUrls.S3.{
  PresignedUrlAttribution, attribution_for, virtual_hosted, attribute_s3,
}

-- A presigned request to `<bucket>.s3.<region>.amazonaws.com` is attributed to the bucket, whatever
-- full stops its name has, if the region is a label in lower case that does not begin with `s3`.
pub attribute_s3-regional_host :
    (p : Platform) (url : PresignedAwsUrl) (bucket region : Text)
    → url.host ≡ regional_host bucket region
    → is_bucket bucket ≡ true
    → is_label region ≡ true
    → starts_with (codes "s3") region ≡ false
    → if_present (λ (a : PresignedUrlAttribution). a.remote_resource) (attribute_s3 p url)
      ≡ some (some (codes "AWS::S3::Bucket", bucket))
unfolding attribute_s3 virtual_hosted attribution_for
attribute_s3-regional_host p url bucket region host valid label other =
    rw
      (
        host,
        is_path_style-regional_host bucket region label,
        get_virtual_hosted_style_bucket_round_trip bucket region valid label other,
      )
      refl
