-- ===== src/JsonParser.antt =====
-- firmware/components/alarm_core/json_parser.cpp with its header: the strict, bounded reader of JSON.
-- `pos_` is the text that is left, `depth_` counts down from its limit, and a value that was read
-- stands for `current_`.
pub mod Types
pub mod Scalars
pub mod Values
mod Ends
mod Returns
mod Utf8
mod WellFormed
mod Limits
pub mod Bounded
mod Nodes
mod Tests
