-- ===== src/MetricAttributes/AgentCore.antt =====
-- aws-metric-attribute-generator.ts: the resources of Bedrock AgentCore. A handler gives the type, the
-- identifier and the primary identifier for CloudFormation.
use aws_otel_js_instrumentat.Prelude.{
  Bool, ◌&&◌, ◌||◌, Option, none, some, List, [], ◌∷◌, ◌++◌, Text, codes, text_test, includes,
  is_empty, is_present, or_else, if_present, if◌then◌else◌,
}
use aws_otel_js_instrumentat.Spans.Model.{
  AttributeValue, text, Span, Platform, as_text, is_text, is_truthy, get,
}
use aws_otel_js_instrumentat.Arns.Arn.{extract_bedrock_agent_core_resource_id_from_arn}

abbrev pub Found : Type 0
Found = Option Text × Option Text × Option Text

abbrev nothing : Found
nothing = (none, none, none)

abbrev same_twice : Text → Option Text → Found
same_twice resource_type identifier = (some resource_type, identifier, identifier)

-- The identifier where it is a text, and else the end of the ARN.
id_or_arn : Option AttributeValue → Option AttributeValue → Option Text
id_or_arn id arn = or_else (as_text id) (extract_bedrock_agent_core_resource_id_from_arn arn)

unfoldable pub handle_browser_attrs : Span → Found
unfolding id_or_arn
handle_browser_attrs span =
    let browser_id = get span "gen_ai.browser.id" in
    let browser_arn = get span "aws.bedrock.agentcore.browser.arn" in
    let identifier = id_or_arn browser_id browser_arn in
    if is_truthy browser_id || is_truthy browser_arn
    then same_twice
        (if is_text identifier (codes "aws.browser.v1")
          then codes "Browser"
          else codes "BrowserCustom")
        identifier
    else nothing

gateway_target : Option Text → Option AttributeValue → Option AttributeValue → Option Text
gateway_target (some gateway_id) gateway_arn target_id = some gateway_id
gateway_target none gateway_arn target_id =
    if is_present (as_text gateway_arn)
    then extract_bedrock_agent_core_resource_id_from_arn gateway_arn
    else as_text target_id

unfoldable pub handle_gateway_attrs : Span → Found
unfolding gateway_target id_or_arn
handle_gateway_attrs span =
    let gateway_id = get span "gen_ai.gateway.id" in
    let gateway_arn = get span "aws.bedrock.agentcore.gateway.arn" in
    let target_id = get span "aws.gateway.target.id" in
    if is_truthy target_id
    then same_twice (codes "GatewayTarget")
        (gateway_target (as_text gateway_id) gateway_arn target_id)
    else if is_truthy gateway_arn || is_truthy gateway_id
    then same_twice (codes "Gateway") (id_or_arn gateway_id gateway_arn)
    else nothing

unfoldable pub handle_runtime_attrs : Span → Found
unfolding id_or_arn
handle_runtime_attrs span =
    let runtime_id = get span "gen_ai.runtime.id" in
    let runtime_arn = get span "aws.bedrock.agentcore.runtime.arn" in
    let endpoint_arn = get span "aws.bedrock.agentcore.runtime_endpoint.arn" in
    if is_truthy endpoint_arn
    then (
      some (codes "RuntimeEndpoint"),
      extract_bedrock_agent_core_resource_id_from_arn endpoint_arn,
      as_text endpoint_arn,
    )
    else if is_truthy runtime_arn || is_truthy runtime_id
    then same_twice (codes "Runtime") (id_or_arn runtime_id runtime_arn)
    else nothing

unfoldable pub handle_code_interpreter_attrs : Span → Found
unfolding id_or_arn
handle_code_interpreter_attrs span =
    let interpreter_id = get span "gen_ai.code_interpreter.id" in
    let interpreter_arn = get span "aws.bedrock.agentcore.code_interpreter.arn" in
    let identifier = id_or_arn interpreter_id interpreter_arn in
    if is_truthy interpreter_id || is_truthy interpreter_arn
    then same_twice
        (if is_text identifier (codes "aws.codeinterpreter.v1")
          then codes "CodeInterpreter"
          else codes "CodeInterpreterCustom")
        identifier
    else nothing

text_or_empty : Option Text → Text
text_or_empty none = []
text_or_empty (some t) = t

credential_provider_type : Text → Option Text
credential_provider_type method =
    if includes (codes "apikey") method
    then some (codes "APIKeyCredentialProvider")
    else if includes (codes "oauth2") method
    then some (codes "OAuth2CredentialProvider")
    else none

credential_provider : Option Text → Text → Found
credential_provider none provider = nothing
credential_provider (some resource_type) provider = same_twice resource_type (
    or_else (extract_bedrock_agent_core_resource_id_from_arn (some (text provider)))
      (some provider))

-- `a || b`
non_empty_or : Option Text → Option Text → Option Text
non_empty_or none other = other
non_empty_or (some t) other = if is_empty t then other else some t

unfoldable pub handle_memory_attrs : Span → Found
unfolding non_empty_or
handle_memory_attrs span =
    let memory_id = get span "gen_ai.memory.id" in
    let memory_arn = get span "aws.bedrock.agentcore.memory.arn" in
    let of_id = as_text memory_id in
    let identifier =
      if is_present (as_text memory_arn)
      then non_empty_or of_id (extract_bedrock_agent_core_resource_id_from_arn memory_arn)
      else of_id in
    if is_truthy memory_id || is_truthy memory_arn
    then (some (codes "Memory"), identifier, non_empty_or (as_text memory_arn) identifier)
    else nothing

-- The first handler that gives a type; no type is empty.
first_found : List Found → Found
first_found [] = nothing
first_found ((none, identifier, primary) ∷ found) = first_found found
first_found ((some resource_type, identifier, primary) ∷ found) =
    (some (codes "AWS::BedrockAgentCore::" ++ resource_type), identifier, primary)

module _ (p : Platform) where
  unfoldable pub handle_identity_attrs : Span → Found
  unfolding text_or_empty credential_provider_type credential_provider
  handle_identity_attrs span =
      let provider = get span "aws.auth.credential_provider" in
      let method = get span p.names.rpc_method in
      if is_truthy provider && is_truthy method
      then credential_provider
          (credential_provider_type (text_or_empty (if_present p.to_lower_case (as_text method))))
          (text_or_empty (as_text provider))
      else nothing

  unfoldable pub is_bedrock_agent_core_span : Span → Bool
  is_bedrock_agent_core_span span =
      is_text (as_text (get span p.names.rpc_service)) (codes "BedrockAgentCore")

  unfoldable pub get_bedrock_agent_core_resource_type_and_identifier : Span → Found
  unfolding first_found
  get_bedrock_agent_core_resource_type_and_identifier span = first_found (
      handle_browser_attrs span
      ∷ handle_gateway_attrs span
      ∷ handle_runtime_attrs span
      ∷ handle_code_interpreter_attrs span
      ∷ handle_identity_attrs span
      ∷ handle_memory_attrs span
      ∷ [])
