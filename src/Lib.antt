-- ===== src/Lib.antt =====
-- Free Claude Desktop: a local gateway that lets Claude Desktop, which speaks Anthropic's Messages
-- API, use any upstream that speaks OpenAI's Chat Completions API.
--
-- A request of the desktop is deserialised, checked, and converted to a Chat Completions request
-- under the user's settings; the response, or the stream of events, is converted back.
--
-- Modelled:
--   Claude          core/src/models/claude.rs: the request after it is deserialised. A field
--                   `type` or `data` of the source is `kind`, `source_type` or `content` here.
--   Settings        core/src/core/config.rs: the settings records. A hash map is an association
--                   list with distinct keys, whose order is the order of iteration.
--     Defaults      the defaults, generate_proxy_auth_token
--     Legacy        LegacyFlatSettings and its migration
--     Load          looks_like_legacy_flat_settings .. save_launcher_settings
--     Public        to_public_config
--     Secrets       core/src/platform/crypto.rs
--   AppError        core/src/core/error.rs
--   Json            serde_json's values as the source builds and takes them apart; an object keeps
--                   its keys sorted, and its entries by `insert`.
--   Request         core/src/conversion/request_converter.rs, with one child module for each step
--                   of `anthropic_to_openai_request`:
--     Effort        thinking_budget_to_effort .. clamp_reasoning_effort, base_model_alias and
--                   supported_efforts .. apply_thinking_mapping
--     Routes        detect_family .. resolve_model_route, apply_model_mapping
--     Images        tool_result_images .. validate_tool_result_images
--     Blocks        extract_system_text .. build_tool_messages, text_blocks,
--                   convert_user_blocks .. convert_single_user_message
--     Messages      handle_assistant_message, try_handle_tool_followup, convert_claude_messages
--     Tools         build_single_openai_tool .. apply_tool_choice_mapping
--     Convert       anthropic_to_openai_request
--   ModelList       the list of models of core/src/conversion/response_converter.rs
--     Provider      is_free_model .. model_alias
--     Order         model_base_name, parse_provider_models .. filter_1m_variants
--     Calendar      unix_secs_to_rfc3339 .. days_from_civil
--     Normalize     normalize_models_response and its variants, build_inference_models
--     Visibility    apply_model_visibility
--   Openai          core/src/models/openai.rs: the types of these lists
--   Response        the rest of response_converter.rs
--     Gateway       is_local_hostname .. normalize_chat_completions_url
--     Proxy         prepare_proxy_body, rewrite_stale_model_request
--     Convert       openai_to_anthropic_response
--   Stream          proxy/src/server/streaming.rs: the state of a stream and its handlers
--     Events        the events, and their text (`format!` and `json!` of the handlers)
--                   The hash map of the open tool calls is a list in the order of insertion:
--                   finish_active_tools stops their blocks in that order, where the source stops
--                   them in the unspecified order of the map.
--     Lines         convert_stream_inner's loops, start_sse_stream_conversion
--   Optimization    core/src/optimization: command_utils.rs (Commands), detection.rs (Detection),
--                   mod.rs (Answers), and web_tools.rs:
--     WebTools      is_public_ip, is_public_ipv4 (Address), policy_from_settings ..
--                   is_private_address (Policy), resolve_target and handle_redirect ..
--                   truncate_chars (Fetch), the rest (Calls)
--   Upstream        proxy/src/server/upstream.rs: build_upstream_request,
--                   copy_safe_response_headers (Headers, with resolve_auth_header_name and
--                   apply_gateway_auth of core/src/lib.rs), read_bounded_error (Errors)
--   Server          proxy/src/server: the handling of a request, which calls all the above
--     Tokens        handler.rs, text_field_chars .. handle_count_tokens
--     Answer        the answers, optimization_response.rs, sse_stream_response
--     Probe         messages_probe.rs
--     Summary       handler.rs, api_request_summary .. record_api_outcome
--     Outside       what the handling takes from outside
--     Retry         model_retry.rs
--     Dispatch      handler.rs, handle_openai_stream_response .. handle_anthropic_passthrough and
--                   dispatch_upstream
--     Handler       handler.rs, load_settings_or_response .. build_proxy_body, handle_proxy
--   Prelude         the helpers that these share.
--
-- How the code corresponds to the definitions: a function of the source is a definition with its
-- name. A `&mut` argument is an argument and a result. `Result` and `?` are `Result` and `>>=`,
-- `Option`'s methods are the functions of Prelude. The outgoing `data`, always a JSON object, is
-- held by its fields. The loop of convert_claude_messages runs on fuel: the number of messages,
-- which is enough as each round advances the index by one at least. Numbers of the request
-- are natural numbers; a float is held by the 64 bits of its representation.
--
-- The variables of convert_stream_inner are the fields of `StreamState`, and `tx.send` appends to
-- its `events`; `render` gives an event's text. `process_chunk` is the part of process_data_line
-- behind the parsing of the line. The index of a block wraps at 2 ^ 64. The loop that takes lines
-- off the buffer runs on fuel: the length of the buffer, which is enough as each line is longer
-- than nothing (`read_lines-eq-feed`). A chunk is the bytes that arrived, or the network's error.
--
-- Parameters: `parse_request` and `print` stand for the JSON reader and printer of the serde_json
-- crate, as does `parse_json`; `decode` stands for `String::from_utf8_lossy`; `msg_id` is made from
-- the clock. For the lists of models and the responses, `from_value` stands for serde's reader of
-- a model, `from_str` and `to_string` for serde_json, `now` for the clock, and the record
-- UrlLibrary for the crate url. Nothing is assumed of them, but that the reader reads back the
-- printed input of a tool call where a theorem says so. The record Network holds the operations
-- of reqwest, of the resolver of names and of url that a fetch calls; what they give may depend on
-- the round. A fetch makes six rounds at most, as the loop over the redirections does, and returns
-- the connections that it made with its text. A day number or a second is a natural
-- number, as no caller gives a negative one; a panic of `data["model"] = ...` is `none`.
--
-- The builder of a request to the gateway is held by the calls of `header` and `bearer_auth`, and
-- the body of an error by the chunks that arrive; `host_str` stands for the crate url.
--
-- The settings' file is its text, or nothing where it does not exist; the keyring's entry is its
-- password. Loading and storing take them and give them back. The records Storage and Keyring hold
-- what is called of serde_json, of the file system and of the crate keyring; where a theorem relies
-- on them, it says on what.
--
-- handle_proxy takes the headers and the body of a request, and gives the requests that it sends,
-- the records that it logs and its answer, or `none` where it panics. The record Outside holds the
-- crates that it calls, the clock, the settings and the keyring as the request finds them, and the
-- upstream, whose answers may depend on which of the requests it is. The connections of the web
-- tools are in Optimization.WebTools, and not among the requests that are sent.
--
-- Not modelled: calls that only write the log; the capacity of the line buffer; that a stream is
-- dropped when the client leaves; the readers that serde derives; the network, the lists of
-- models as they are fetched and cached, the dashboard, the launcher and the daemons; the texts of
-- the interface.
pub mod Prelude
pub mod Json
pub mod AppError
pub mod Server
pub mod Claude
pub mod Settings
pub mod Request
pub mod Response
pub mod Stream
pub mod Upstream
pub mod Openai
pub mod ModelList
pub mod Optimization
