-- ===== src/Download.antt =====
-- scripts/download_model.py: a model file that is streamed into the models directory, with its
-- metadata beside it.
pub mod World
pub mod Outside
pub mod Url
pub mod Digest
pub mod Metadata
pub mod Model
pub mod Catalog
pub mod Examples
