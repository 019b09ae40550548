-- ===== src/Arns/SqsUrl/RoundTrip.antt =====
-- Reading a queue URL back.
use aws_otel_js_instrumentat.Prelude.{true, [], ◌∷◌, ◌++◌, Text, codes, nat_beq, join, Lacks, ◌≡◌}
use aws_otel_js_instrumentat.Arns.Arn.{is_account_id}
use aws_otel_js_instrumentat.Arns.SqsUrl.{is_valid_queue_name}

-- `sqs.<region>.amazonaws.com`
abbrev pub domain_of : Text → Text
domain_of region = join (codes ".") (codes "sqs" ∷ region ∷ codes "amazonaws" ∷ codes "com" ∷ [])

-- `https://sqs.<region>.amazonaws.com/<account>/<queue>`
abbrev pub queue_url : Text → Text → Text → Text
queue_url region account queue =
    codes "https://" ++ join (codes "/") (domain_of region ∷ account ∷ queue ∷ [])

-- What the fields of a queue URL are.
pub record IsQueueUrl (region account queue : Text) : Type 0 where
  pub region_colon : Lacks (nat_beq 58) region
  pub region_slash : Lacks (nat_beq 47) region
  pub region_stop : Lacks (nat_beq 46) region
  pub account_id : is_account_id account ≡ true
  pub queue_name : is_valid_queue_name queue ≡ true
