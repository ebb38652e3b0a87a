-- ===== src/Providers.antt =====
-- crates/hermes-providers/src: of the provider clients, the parts that compute on text.
pub mod ThinkTags
pub mod Segments
pub mod Splitting
pub mod Openai
pub mod Anthropic
pub mod Conversation
pub mod Sendable
pub mod Frames
pub mod Framing
pub mod OpenaiEvents
pub mod AnthropicEvents
pub mod Breaking
pub mod Ending
