-- ===== src/PresignedUrls/Operation/Levels.antt =====
-- Which operations the code names.
use aws_otel_js_instrumentat.Prelude.{
  Bool, true, false, Option, none, some, List, [], ◌∷◌, ◌++◌, Text, codes, ◌==◌, text_test,
  same_units, any, or_else, ◌≡◌, refl, arith, if◌then◌else◌,
}
use aws_otel_js_instrumentat.Spans.Operation.{unknown_remote_operation}
use aws_otel_js_instrumentat.PresignedUrls.Parser.{PresignedAwsUrl}
use aws_otel_js_instrumentat.PresignedUrls.Operation.{
  list_operation, upload_operation, uploads_operation, acl_operation, tagging_operation, get_or_put,
  torrent_operation, object_operation, subresource_operation, bucket_or_object_operation,
  last_operation, operation_or, operation_of_method,
}

-- The operations of a multipart upload that is named by its id.
abbrev pub upload_names : List Text
upload_names =
    codes "UploadPart"
    ∷ codes "ListParts"
    ∷ codes "CompleteMultipartUpload"
    ∷ codes "AbortMultipartUpload"
    ∷ []

-- Those on an object, and those on a bucket.
abbrev pub object_names : List Text
object_names =
    codes "CreateMultipartUpload"
    ∷ codes "GetObjectAcl"
    ∷ codes "PutObjectAcl"
    ∷ codes "GetObjectTagging"
    ∷ codes "PutObjectTagging"
    ∷ codes "DeleteObjectTagging"
    ∷ codes "GetObjectRetention"
    ∷ codes "PutObjectRetention"
    ∷ codes "GetObjectLegalHold"
    ∷ codes "PutObjectLegalHold"
    ∷ codes "GetObjectTorrent"
    ∷ codes "GetObject"
    ∷ codes "HeadObject"
    ∷ codes "PutObject"
    ∷ codes "DeleteObject"
    ∷ []

abbrev pub bucket_names : List Text
bucket_names =
    codes "ListObjectsV2"
    ∷ codes "ListMultipartUploads"
    ∷ codes "GetBucketAcl"
    ∷ codes "PutBucketAcl"
    ∷ codes "GetBucketTagging"
    ∷ codes "PutBucketTagging"
    ∷ codes "DeleteBucketTagging"
    ∷ []

-- What a request may be called, with an object key and without.
abbrev pub names : Bool → List Text
names key =
    unknown_remote_operation ∷ (upload_names ++ (if key then object_names else bucket_names))

abbrev pub is_name : Bool → Text → Bool
is_name key operation = any (λ name. name == operation) (names key)

abbrev is_name_if : Bool → Option Text → Bool
is_name_if key none = true
is_name_if key (some operation) = is_name key operation

or_else-is_name_if :
    (key : Bool) (first second : Option Text)
    → is_name_if key first ≡ true
    → is_name_if key second ≡ true
    → is_name_if key (or_else first second) ≡ true
unfolding or_else
or_else-is_name_if key none second h k = k
or_else-is_name_if key (some operation) second h k = h

list_operation-is_name_if :
    (url : PresignedAwsUrl) (method : Text) (key : Bool)
    → is_name_if key (list_operation url method key) ≡ true
unfolding list_operation same_units
list_operation-is_name_if url method true = ground arith
list_operation-is_name_if url method false = ground arith

upload_operation-is_name_if :
    (url : PresignedAwsUrl) (method : Text) (key : Bool)
    → is_name_if key (upload_operation url method) ≡ true
unfolding upload_operation same_units
upload_operation-is_name_if url method true = ground arith
upload_operation-is_name_if url method false = ground arith

uploads_operation-is_name_if :
    (url : PresignedAwsUrl) (method : Text) (key : Bool)
    → is_name_if key (uploads_operation url method key) ≡ true
unfolding uploads_operation same_units
uploads_operation-is_name_if url method true = ground arith
uploads_operation-is_name_if url method false = ground arith

acl_operation-is_name_if :
    (url : PresignedAwsUrl) (method : Text) (key : Bool)
    → is_name_if key (acl_operation url method key) ≡ true
unfolding acl_operation same_units
acl_operation-is_name_if url method true = ground arith
acl_operation-is_name_if url method false = ground arith

tagging_operation-is_name_if :
    (url : PresignedAwsUrl) (method : Text) (key : Bool)
    → is_name_if key (tagging_operation url method key) ≡ true
unfolding tagging_operation same_units
tagging_operation-is_name_if url method true = ground arith
tagging_operation-is_name_if url method false = ground arith

subresource_operation-is_name_if :
    (url : PresignedAwsUrl) (method : Text)
    → is_name_if true (subresource_operation url method) ≡ true
unfolding subresource_operation get_or_put torrent_operation or_else same_units
subresource_operation-is_name_if url method = ground arith

object_operation-is_name : (method : Text) → is_name true (object_operation method) ≡ true
unfolding object_operation same_units
object_operation-is_name method = ground arith

last_operation-is_name_if :
    (url : PresignedAwsUrl) (method : Text) (key : Bool)
    → is_name_if key (last_operation url method key) ≡ true
unfolding last_operation
last_operation-is_name_if url method true =
    or_else-is_name_if true (subresource_operation url method) (some (object_operation method))
      (subresource_operation-is_name_if url method) (object_operation-is_name method)
last_operation-is_name_if url method false = refl

operation_or-is_name :
    (key : Bool) (operation : Option Text)
    → is_name_if key operation ≡ true
    → is_name key (operation_or operation) ≡ true
unfolding operation_or same_units
operation_or-is_name true none h = refl
operation_or-is_name false none h = refl
operation_or-is_name key (some operation) h = h

-- Whatever a request holds, its operation is one of a fixed list: with an object key an operation on
-- objects, without one an operation on buckets, and in both cases also one of a multipart upload
-- named by its id, or the unknown operation.
pub operation_of_method-is_name :
    (url : PresignedAwsUrl) (method : Text) (key : Bool)
    → is_name key (operation_of_method url method key) ≡ true
unfolding operation_of_method bucket_or_object_operation
operation_of_method-is_name url method key = operation_or-is_name key _ (
    or_else-is_name_if key _ _
      (or_else-is_name_if key _ _ (list_operation-is_name_if url method key) (
        or_else-is_name_if key _ _ (upload_operation-is_name_if url method key) (
          or_else-is_name_if key _ _ (uploads_operation-is_name_if url method key) (
            or_else-is_name_if key _ _ (acl_operation-is_name_if url method key)
              (tagging_operation-is_name_if url method key)))))
      (last_operation-is_name_if url method key))
