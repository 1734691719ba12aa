-- ===== src/Connectors.antt =====
-- apps/connectors: how subtitles become the text and the anchors of a transcript.
pub mod Srt
pub mod Flattened
mod Tests
