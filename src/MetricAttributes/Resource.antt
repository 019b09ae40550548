-- ===== src/MetricAttributes/Resource.antt =====
-- aws-metric-attribute-generator.ts: the remote resource of a call
-- (`setRemoteResourceTypeAndIdentifier`).
use aws_otel_js_instrumentat.Prelude.{
  Bool, true, false, Option, none, some, [], ◌∷◌, ◌++◌, String, Text, codes, if_present, insert,
  string_test, if◌then◌else◌,
}
use aws_otel_js_instrumentat.Spans.Model.{
  AttributeValue, text, boolean, array, number, other, Attributes, Span, Platform, get,
  is_key_present,
}
use aws_otel_js_instrumentat.Spans.Kinds.{is_aws_sdk_span, is_db_span}
use aws_otel_js_instrumentat.Arns.Arn.{
  extract_resource_name_from_arn, extract_dynamo_db_table_name_from_arn,
  extract_kinesis_stream_name_from_arn,
}
use aws_otel_js_instrumentat.Arns.SqsUrl.{get_queue_name}
use aws_otel_js_instrumentat.MetricAttributes.Escape.{
  escape_text, escape_delimiters, in_template, get_db_connection,
}
use aws_otel_js_instrumentat.MetricAttributes.Callee.{is_lambda_invoke_operation}
use aws_otel_js_instrumentat.PresignedUrls.S3.{PresignedUrlAttribution}
use aws_otel_js_instrumentat.MetricAttributes.AgentCore.{
  Found, is_bedrock_agent_core_span, get_bedrock_agent_core_resource_type_and_identifier,
}

abbrev no_resource : Found
no_resource = (none, none, none)

-- A resource with an identifier alone, and one with an identifier for CloudFormation too.
abbrev named : Text → Option Text → Found
named resource_type identifier = (some resource_type, identifier, none)

abbrev named_by : Text → Option Text → Option Text → Found
named_by resource_type identifier primary = (some resource_type, identifier, primary)

-- The name of the only table.
only_table : Option AttributeValue → Option (Option Text)
only_table (some (array (table ∷ []) t)) = some table
only_table (some (array [] t)) = none
only_table (some (array (a ∷ b ∷ tables) t)) = none
only_table (some (text t)) = none
only_table (some (boolean b)) = none
only_table (some (number n t)) = none
only_table (some (other truth t)) = none
only_table none = none

escape_parts : Found → Found
escape_parts (resource_type, identifier, primary) =
    (resource_type, if_present escape_text identifier, if_present escape_text primary)

-- The name in an ARN, and the ARN.
by_arn : Text → Option AttributeValue → Found
by_arn resource_type arn =
    named_by resource_type (if_present escape_text (extract_resource_name_from_arn arn))
      (escape_delimiters arn)

table_of : Text → Option Text → Found
table_of resource_type table = named resource_type (if_present escape_text table)

queue_of : Option Text → Found
queue_of queue_url =
    named_by (codes "AWS::SQS::Queue") (get_queue_name (if_present text queue_url)) queue_url

data_source : Option Text → Option Text → Found
data_source identifier knowledge_base =
    named_by (codes "AWS::Bedrock::DataSource") identifier
      (some (in_template knowledge_base ++ (codes "|" ++ in_template identifier)))

module _ (p : Platform) where
  unfoldable pub aws_sdk_agent_resource : Span → Found
  unfolding escape_parts data_source
  aws_sdk_agent_resource span =
      if is_key_present span "aws.bedrock.agent.id"
      then named (codes "AWS::Bedrock::Agent") (escape_delimiters (get span "aws.bedrock.agent.id"))
      else if is_key_present span "aws.bedrock.data_source.id"
      then data_source (escape_delimiters (get span "aws.bedrock.data_source.id"))
          (escape_delimiters (get span "aws.bedrock.knowledge_base.id"))
      else if is_key_present span "aws.bedrock.guardrail.id"
      then named_by (codes "AWS::Bedrock::Guardrail")
          (escape_delimiters (get span "aws.bedrock.guardrail.id"))
          (escape_delimiters (get span "aws.bedrock.guardrail.arn"))
      else if is_key_present span "aws.bedrock.knowledge_base.id"
      then named (codes "AWS::Bedrock::KnowledgeBase")
          (escape_delimiters (get span "aws.bedrock.knowledge_base.id"))
      else if is_key_present span "gen_ai.request.model"
      then named (codes "AWS::Bedrock::Model") (escape_delimiters (get span "gen_ai.request.model"))
      else if is_bedrock_agent_core_span p span
      then escape_parts (get_bedrock_agent_core_resource_type_and_identifier p span)
      else no_resource

  unfoldable pub aws_sdk_compute_resource : Span → Found
  unfolding queue_of
  aws_sdk_compute_resource span =
      if is_key_present span "aws.lambda.function.name"
      then if is_lambda_invoke_operation p span
        then no_resource
        else named_by (codes "AWS::Lambda::Function")
            (escape_delimiters (get span "aws.lambda.function.name"))
            (escape_delimiters (get span "aws.lambda.function.arn"))
      else if is_key_present span "aws.lambda.resource_mapping.id"
      then named (codes "AWS::Lambda::EventSourceMapping")
          (escape_delimiters (get span "aws.lambda.resource_mapping.id"))
      else if is_key_present span "aws.sqs.queue.name"
      then named (codes "AWS::SQS::Queue") (escape_delimiters (get span "aws.sqs.queue.name"))
      else if is_key_present span "aws.sqs.queue.url"
      then queue_of (escape_delimiters (get span "aws.sqs.queue.url"))
      else aws_sdk_agent_resource span

  stored_resource : Span → Option (Option Text) → Found
  unfolding by_arn table_of
  stored_resource span (some table) = table_of (codes "AWS::DynamoDB::Table") table
  stored_resource span none =
      if is_key_present span "aws.dynamodb.table.arn"
      then table_of (codes "AWS::DynamoDB::Table")
          (extract_dynamo_db_table_name_from_arn (get span "aws.dynamodb.table.arn"))
      else if is_key_present span "aws.kinesis.stream.name"
      then named (codes "AWS::Kinesis::Stream")
          (escape_delimiters (get span "aws.kinesis.stream.name"))
      else if is_key_present span "aws.kinesis.stream.arn"
      then table_of (codes "AWS::Kinesis::Stream")
          (extract_kinesis_stream_name_from_arn (get span "aws.kinesis.stream.arn"))
      else if is_key_present span "aws.s3.bucket"
      then named (codes "AWS::S3::Bucket") (escape_delimiters (get span "aws.s3.bucket"))
      else if is_key_present span "aws.sns.topic.arn"
      then by_arn (codes "AWS::SNS::Topic") (get span "aws.sns.topic.arn")
      else if is_key_present span "aws.secretsmanager.secret.arn"
      then by_arn (codes "AWS::SecretsManager::Secret") (get span "aws.secretsmanager.secret.arn")
      else if is_key_present span "aws.step_functions.state_machine.arn"
      then by_arn (codes "AWS::StepFunctions::StateMachine")
          (get span "aws.step_functions.state_machine.arn")
      else if is_key_present span "aws.step_functions.activity.arn"
      then by_arn (codes "AWS::StepFunctions::Activity")
          (get span "aws.step_functions.activity.arn")
      else aws_sdk_compute_resource span

  unfoldable pub aws_sdk_resource : Span → Found
  unfolding stored_resource only_table
  aws_sdk_resource span =
      stored_resource span (only_table (get span p.names.aws_dynamodb_table_names))

  of_attribution : Option (Text × Text) → Found
  of_attribution none = no_resource
  of_attribution (some (resource_type, identifier)) =
      named resource_type (some (escape_text identifier))

  other_resource : Span → Option PresignedUrlAttribution → Found
  unfolding of_attribution
  other_resource span (some attribution) = of_attribution attribution.remote_resource
  other_resource span none =
      if is_db_span p span
      then named (codes "DB::Connection") (get_db_connection p span)
      else no_resource

  unfoldable pub remote_resource : Span → Option PresignedUrlAttribution → Found
  unfolding other_resource
  remote_resource span attribution =
      if is_aws_sdk_span p span then aws_sdk_resource span else other_resource span attribution

-- `attributes[key] = value`
abbrev pub put : String → Text → Attributes → Attributes
put key value attributes = insert key (text value) attributes

-- Sets all three attributes or none, and says whether it did.
unfoldable pub set_found : Found → Attributes → Attributes × Bool
set_found (some resource_type, some identifier, none) attributes = (
  put "aws.remote.resource.cfn.primary.identifier" identifier (
      put "aws.remote.resource.identifier" identifier
        (put "aws.remote.resource.type" resource_type attributes)),
  true,
)
set_found (some resource_type, some identifier, some primary) attributes = (
  put "aws.remote.resource.cfn.primary.identifier" primary (
      put "aws.remote.resource.identifier" identifier
        (put "aws.remote.resource.type" resource_type attributes)),
  true,
)
set_found (none, identifier, primary) attributes = (attributes, false)
set_found (some resource_type, none, primary) attributes = (attributes, false)

unfoldable pub set_remote_resource_type_and_identifier :
    Platform → Span → Option PresignedUrlAttribution → Attributes → Attributes × Bool
set_remote_resource_type_and_identifier p span attribution attributes =
    set_found (remote_resource p span attribution) attributes
