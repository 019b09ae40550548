-- ===== src/PresignedUrls/Operation.antt =====
-- s3-presigned-url-attributor.ts: the operation of a request (`getRemoteOperation`).
pub mod Levels
use aws_otel_js_instrumentat.Prelude.{
  ℕ, Bool, true, false, not, ◌&&◌, ◌||◌, Option, none, some, List, [], ◌∷◌, ◌++◌, map, Text, codes,
  ◌==◌, text_test, nat_beq, leb, ltb, all, length, keep_if, is_empty, is_present, if_present, split,
  join, starts_with, drop, or_else, get_elem?, ◌>>=◌, ◌+◌, if◌then◌else◌,
}
use aws_otel_js_instrumentat.Spans.Operation.{unknown_remote_operation}
use aws_otel_js_instrumentat.PresignedUrls.Parser.{PresignedAwsUrl, get_first_value}

-- `presignedAwsUrl.getFirstQueryParameterValue(name) !== undefined`
has : PresignedAwsUrl → Text → Bool
has url name = is_present (get_first_value url.query_parameters name)

abbrev is_value : Option Text → Text → Bool
is_value none value = false
is_value (some v) value = v == value

-- An operation on an object, or on its bucket.
abbrev on_object : Bool → Text → Text → Option Text
on_object key object bucket = some (if key then object else bucket)

list_operation : PresignedAwsUrl → Text → Bool → Option Text
list_operation url method key =
    if method == codes "GET"
      && not key
      && is_value (get_first_value url.query_parameters (codes "list-type")) (codes "2")
    then some (codes "ListObjectsV2")
    else none

upload_operation : PresignedAwsUrl → Text → Option Text
upload_operation url method =
    if not (has url (codes "uploadId"))
    then none
    else if method == codes "PUT" && has url (codes "partNumber")
    then some (codes "UploadPart")
    else if method == codes "GET"
    then some (codes "ListParts")
    else if method == codes "POST"
    then some (codes "CompleteMultipartUpload")
    else if method == codes "DELETE"
    then some (codes "AbortMultipartUpload")
    else none

uploads_operation : PresignedAwsUrl → Text → Bool → Option Text
uploads_operation url method key =
    if not (has url (codes "uploads"))
    then none
    else if method == codes "POST" && key
    then some (codes "CreateMultipartUpload")
    else if method == codes "GET" && not key
    then some (codes "ListMultipartUploads")
    else none

acl_operation : PresignedAwsUrl → Text → Bool → Option Text
acl_operation url method key =
    if not (has url (codes "acl"))
    then none
    else if method == codes "GET"
    then on_object key (codes "GetObjectAcl") (codes "GetBucketAcl")
    else if method == codes "PUT"
    then on_object key (codes "PutObjectAcl") (codes "PutBucketAcl")
    else none

tagging_operation : PresignedAwsUrl → Text → Bool → Option Text
tagging_operation url method key =
    if not (has url (codes "tagging"))
    then none
    else if method == codes "GET"
    then on_object key (codes "GetObjectTagging") (codes "GetBucketTagging")
    else if method == codes "PUT"
    then on_object key (codes "PutObjectTagging") (codes "PutBucketTagging")
    else if method == codes "DELETE"
    then on_object key (codes "DeleteObjectTagging") (codes "DeleteBucketTagging")
    else none

-- A subresource that is read and written.
get_or_put : PresignedAwsUrl → Text → Text → Text → Text → Option Text
get_or_put url method name read write =
    if not (has url name)
    then none
    else if method == codes "GET"
    then some read
    else if method == codes "PUT"
    then some write
    else none

torrent_operation : PresignedAwsUrl → Text → Option Text
torrent_operation url method =
    if method == codes "GET" && has url (codes "torrent")
    then some (codes "GetObjectTorrent")
    else none

object_operation : Text → Text
object_operation method =
    if method == codes "GET"
    then codes "GetObject"
    else if method == codes "HEAD"
    then codes "HeadObject"
    else if method == codes "PUT"
    then codes "PutObject"
    else if method == codes "DELETE"
    then codes "DeleteObject"
    else unknown_remote_operation

subresource_operation : PresignedAwsUrl → Text → Option Text
unfolding get_or_put torrent_operation
subresource_operation url method =
    or_else
      (get_or_put url method (codes "retention") (codes "GetObjectRetention")
        (codes "PutObjectRetention"))
      (or_else
        (get_or_put url method (codes "legal-hold") (codes "GetObjectLegalHold")
          (codes "PutObjectLegalHold"))
        (torrent_operation url method))

-- The operations on buckets and on objects, in the order of the tests.
bucket_or_object_operation : PresignedAwsUrl → Text → Bool → Option Text
unfolding list_operation upload_operation uploads_operation acl_operation tagging_operation has
bucket_or_object_operation url method key = or_else (list_operation url method key) (
    or_else (upload_operation url method) (
      or_else (uploads_operation url method key)
        (or_else (acl_operation url method key) (tagging_operation url method key))))

-- What is left once no test has returned.
last_operation : PresignedAwsUrl → Text → Bool → Option Text
unfolding subresource_operation object_operation
last_operation url method key =
    if key
    then or_else (subresource_operation url method) (some (object_operation method))
    else none

operation_or : Option Text → Text
operation_or none = unknown_remote_operation
operation_or (some operation) = operation

unfoldable pub operation_of_method : PresignedAwsUrl → Text → Bool → Text
unfolding bucket_or_object_operation last_operation operation_or
operation_of_method url method key =
    operation_or
      (or_else (bucket_or_object_operation url method key) (last_operation url method key))
