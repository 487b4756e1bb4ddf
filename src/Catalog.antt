-- ===== src/Catalog.antt =====
-- src/vllm_source_gateway/rendering/catalog.py: the cards of the model catalog page.
pub mod Markup
pub mod Card
pub mod Pieces
pub mod Escaped
