-- ===== src/RecurrenceResolver.antt =====
-- firmware/components/alarm_core/recurrence_resolver.cpp with its header: the next occurrence of a
-- weekly alarm under the rules of a timezone.
pub mod Types
pub mod Mapping
pub mod Resolve
mod Resolved
mod Tests
