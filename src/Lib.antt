-- ===== src/Lib.antt =====
-- kirocc: a proxy that answers the Anthropic Messages API with the Kiro API. A Kiro reply comes as a
-- stream of events. internal/respconv turns it into Anthropic server-sent events (SSEWriter) or into
-- one JSON response, and enforces stop_sequences, max_tokens and thinking tags on the proxy's side;
-- internal/kiroproto reads the events, internal/app/messages runs the stream over a session that
-- holds back the reply until it is promoted, internal/reqconv turns the request into Kiro's form, and
-- internal/models picks the Kiro model and its effort levels; internal/kiroclient sends the request,
-- more than once if it has to, with a token that internal/auth keeps fresh.
--
-- The files, and the code each models:
--   Kiroproto.Event          internal/kiroproto/eventstream.go: Event
--   Kiroproto.ToolUse        internal/kiroproto/tooluse.go: toolUseAccumulator
--   Kiroproto.Stream         internal/kiroproto/eventstream.go: ParseStream, from its frames on
--   Kiroproto.Checksum       CRC-32 and big-endian numbers, as internal/kiroproto/frame.go uses them
--   Kiroproto.Frame          internal/kiroproto/frame.go: readFrame
--   Kiroproto.Headers        internal/kiroproto/frame.go: extractFrameHeaders
--   Kiroproto.Wire           internal/kiroproto/eventstream.go: ParseStream, up to its frames
--   Respconv.ThinkingTags    internal/respconv/thinking_tags.go: parseThinkingTags and its end
--   Respconv.Stop            internal/respconv/stop_sequence.go, token_budget.go, reasoning.go
--   Respconv.State           internal/respconv/accumulator.go: responseAccumulator, EventDelta
--   Respconv.Accumulator     internal/respconv/accumulator.go, event_processor.go: ProcessEvent,
--                            FinalizeStream
--   Respconv.Result          internal/respconv/finalize.go, usage.go: finalizeResult
--   Respconv.ToolCalls       internal/respconv/tool_calls.go: DeduplicateToolCalls
--   Respconv.NonStreaming    internal/respconv/nonstreaming.go: buildResponseFromAcc, FinalizeText
--   Respconv.SseEvent        internal/respconv/streaming.go: the events and fields of SSEWriter
--   Respconv.Sse             internal/respconv/streaming.go, streaming_toolsearch.go,
--                            streaming_advisor.go: SSEWriter
--   Reqconv.Message          internal/anthropic/types.go: messages, content, blocks
--   Reqconv.ServerTools      internal/reqconv/server_tool_history.go: ExpandServerToolResults
--   Reqconv.Normalizer       internal/reqconv/message_normalizer.go, content_text.go: Normalize
--   Reqconv.ToolResults      internal/reqconv/tool_results.go: ReorderToolResults
--   Models.Mapping           internal/models/models.go: the rows and the built-in table
--   Models.Effort            internal/models/effort.go: IsReasoningModel, ResolveEffort
--   Models.Catalog           internal/models/catalog.go: SetCatalog
--   Models.Resolve           internal/models/models.go: Resolve, lookupMapping, ResolveKnown
--   Models.Listing           internal/models/models.go: ListModels
--   Reqconv.Json             decoded JSON
--   Reqconv.Schema           internal/reqconv/schema_sanitize.go: SanitizeJSONSchema, EnsureObjectRoot
--   Reqconv.Dereference      internal/reqconv/schema_sanitize.go: DereferenceSchema, lookupRef
--   Reqconv.Content          internal/reqconv/content_scan.go: scanMessageContent
--   Reqconv.History          internal/reqconv/history.go, tool_results.go: buildHistory
--   Reqconv.Tools            internal/reqconv/tool_convert.go, cache_points.go: ConvertTools, and
--                            internal/toolsearch/context.go: Context
--   Reqconv.Payload          internal/reqconv/build_payload.go: BuildPayload
--   Reqconv.ToolNames        internal/reqconv/tool_name_map.go: ToolNameMap
--   Kiroclient.AwsError      internal/kiroclient/aws_error.go: the class of an upstream error
--   Kiroclient.Client        internal/kiroclient/client.go: GenerateAssistantResponse
--   Auth                     internal/auth/refresh.go: AuthManager
--   Messages.Effort          internal/app/messages/effort.go: resolveEffort
--   Messages.Session         internal/app/messages/stream_session.go, gate_writer.go: streamSession,
--                            and Messages.Session.Interleaving, its operations in any order
--   Messages.Streaming       internal/app/messages/response.go: handleStreamingResponse
--   Tests                    concrete streams
-- A method of the source is a function of the same name, in the source's order of steps, from the
-- receiver's record to the new record and what the method returns. Files below a component hold its
-- proofs, and Prelude the names, list lemmas and Boolean tests that all share.
--
-- Texts that are cut or counted are lists of runes; identifiers are strings. Go's int is an
-- unbounded integer, and no product or sum in this code comes near 2^63 on a reply that fits in
-- memory, except for the expiry of a token, whose int64 sum wraps around. A float64 is NaN, an
-- infinity or a number on a grid of integers. The loop of parseThinkingTags runs on fuel, one more
-- than the buffer's length, and any more fuel gives the same result. The loops over the bytes of a
-- reply run on fuel too: one turn for each byte and one more are enough. A request is attempted
-- three times at most. Resolving a schema spends fuel on the references that it follows: as many as
-- the schema has texts are enough. An index in a reference is an int of 64 bits. JSON decoding,
-- marshalling and validity, the float arithmetic of the usage estimate, the ResponseWriter, the
-- connection, the promotion callback, what the session and the context report of a client that has
-- gone, the time and the replies of the token endpoint and of the database are parameters. The
-- ResponseWriter, the connection and the callback may fail at any write.
--
-- Not modelled: JSON text, HTTP, logs, clocks and goroutines; the reading of the credentials'
-- database, ParseEnvState, the rounds of the server tools, and the retry of a whole response.
pub mod Prelude
pub mod Kiroproto
pub mod Respconv
pub mod Reqconv
pub mod Models
pub mod Kiroclient
pub mod Auth
pub mod Messages
pub mod Tests
