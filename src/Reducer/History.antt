-- ===== src/Reducer/History.antt =====
-- src/internal/event-store/reducer.ts: replayed lists of events, in the modules below.
pub mod Evidence
pub mod Numbers
pub mod Split
pub mod States
