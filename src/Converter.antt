-- ===== src/Converter.antt =====
-- internal/converter: what a page is read as.
pub mod ContentType
pub mod Rst
