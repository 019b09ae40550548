-- ===== src/Lib.antt =====
-- aws-otel-js-instrumentation, the AWS distribution of OpenTelemetry for Node.js: a model of its
-- stateful core, with proofs. Paths are below aws-distro-opentelemetry-node-autoinstrumentation/src/.
--
-- The parts and their files:
--
--   DynamicInstrumentation: breakpoints set from the console. RateLimiter is
--     dynamic-instrumentation/rate-limiter.ts (`CaptureRateLimiter`); State is
--     model/instrumentation-state.ts (`recordHit`, `checkExpiry`, `getStatus`); Configuration is the
--     data of model/instrumentation-configuration.ts and model/capture-configuration.ts; Registry is
--     registry/instrumentation-registry.ts (`register`, `computeDiff`) with the handler of worker.ts
--     that applies a poll; Reporter is status-reporter.ts (`report`, `reportError`). A state holds its
--     limiter, a registry entry holds a configuration and its state, which a report reads and marks.
--   CloudWatchLogs: exporter/aws/metrics/cloudwatch-logs-client.ts. Batch has `validateLogEvent`,
--     `addEvent` and the limits, Client has `sendLogBatch`, `sendLogEvent` and `flushPendingEvents`.
--   LogBatching: exporter/otlp/aws/logs/aws-cw-otlp-batch-log-record-processor.ts. Size is
--     `estimateLogSize`, Split the loop that cuts a chunk by size, Processor `_flushAll` and
--     `_exportOneBatch`.
--   Incidents: serviceevents/collectors/incident-snapshot-collector.ts. Snapshot has the trigger and
--     the snapshot's content, Limiter the rate limit and the limits of equal errors, Pending the
--     collector's state and `maybeUpgradePendingCorrelation`, Collector `processPotentialIncident`
--     and `collect`.
--   EndpointMetrics: serviceevents/utils/seh-histogram.ts (Histogram),
--     serviceevents/collectors/endpoint-collector.ts (Endpoints records, Export collects) and
--     `toErrorTypeMetrics` of serviceevents/models/endpoint-telemetry.ts. The incident collector hands
--     exemplars to it, which both hold by address.
--   Sampler: sampler/. Reservoir is rate-limiter.ts, Applier is sampling-rule.ts, statistics.ts and
--     `shouldSample` of sampling-rule-applier.ts, Matching is utils.ts (wildcards and rule
--     attributes), Request is `matches` of sampling-rule-applier.ts (which attributes a rule is tested
--     on), Rules is rule-cache.ts and the decisions and updates of aws-xray-remote-sampler.ts and
--     fallback-sampler.ts. Rules takes the match of a rule and a request as an argument: `matches`,
--     where it does not throw.
--   Spans: aws-span-processing-util.ts and attribute-propagating-span-processor.ts. Model is a span with
--     its attributes and the platform the code runs on; Kinds says for which metrics a span counts,
--     Operation names its operation (`getIngressOperation`, `getEgressOperation`), Paths renames it by
--     the templates of OTEL_AWS_HTTP_OPERATION_PATHS, Propagation is `onStart` of the processor, GenAi
--     gen-ai-nested-client-span-processor.ts, Recording always-record-sampler.ts and
--     aws-batch-unsampled-span-processor.ts.
--   Arns: regional-resource-arn-parser.ts (Arn) and sqs-url-parser.ts (SqsUrl).
--   PresignedUrls: Parser is presigned-aws-url-parser.ts; Endpoint and Operation are the hosts and the
--     operations of s3-presigned-url-attributor.ts, S3 the attribution that MetricAttributes falls back
--     on (presigned-url-attributor.ts).
--   MetricAttributes: aws-metric-attribute-generator.ts. Callee and Remote are the remote service and
--     operation,
--     Escape the escaped identifiers and the database connection, AgentCore the resources of Bedrock
--     AgentCore, Resource the remote resource, Generator the attributes of the two metrics, which it
--     puts together from the others and from Spans, Arns and PresignedUrls; Processor is
--     aws-span-metrics-processor.ts and Exporter aws-metric-attributes-span-exporter.ts, which call it.
--   Prelude: the names shared by all parts, tests on numbers and texts, lists, insertion-ordered maps
--     (`Map` and `Set`), stable sorting, decimal texts.
--
-- How code becomes definitions: an object is a record and a method a function from the record to its
-- result and the record after; an exception is a value of the result; awaited calls run one after
-- another. The clock, fresh UUIDs, the variables of the environment and the answers of a service are
-- arguments, as is code outside the repository (the logarithm and the exponential, MD5, glob matching,
-- `toUpperCase`, `toLowerCase`, the code units of a text, the parser of URLs, the decoder of
-- percent-encoded texts, the names of the semantic conventions, the trace-id ratio sampler). Two parts
-- of the repository are arguments too: the parser of V8 stacks, `originFromStack`, and the list of SQL
-- keywords, configuration/sql_dialect_keywords.json; what is shown holds whatever they are. Objects
-- that have several holders (snapshots, exemplars, values of a log record) have addresses.
--
-- Numbers are natural numbers. A time is whole milliseconds since the epoch, also where the source
-- divides by 1000 and compares fractions of seconds; a duration is whole milliseconds or nanoseconds; a
-- sampling rate is whole millionths. The sampler's wallet is kept times the quota, which makes the cost
-- of a trace a whole number.
-- The texts that are measured are lists of UTF-16 code units (messages, stacks) or of code points (the
-- size estimate of log records). Sums stay far below 2^53, where JavaScript's numbers are exact.
-- A numeric attribute is a whole number that is not negative; any other number counts as another value,
-- and so is no status code.
--
-- Fuel: `estimate_log_size` walks at most `max_depth` + 3 levels, since every pass of its loop raises
-- the depth of what is queued; `flush_all` is given as much fuel as there are records, and a positive
-- maximum takes one from the list in every round; so is the loop that cuts a status report. The loop
-- over trailing slashes of a path is given the path's length, and each round takes one unit away.
--
-- Not modelled: the EMF and OTLP exporters and their authentication; the poller, the inspector session
-- and the snapshots of dynamic instrumentation; the function call collector and monitor, the endpoint
-- span processor and the source transformation of service events; the wiring of the SDK, its lite
-- version and the patches of frameworks; diagnostics messages; timers.
pub mod Prelude
pub mod DynamicInstrumentation
pub mod CloudWatchLogs
pub mod LogBatching
pub mod Incidents
pub mod EndpointMetrics
pub mod Arns
pub mod MetricAttributes
pub mod PresignedUrls
pub mod Sampler
pub mod Spans
