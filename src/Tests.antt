-- ===== src/Tests.antt =====
-- Concrete runs of the parts: the data, and each theorem with conditions at an input that meets them.
pub mod Data
pub mod Extraction
pub mod Loading
pub mod Reloading
pub mod Packing
pub mod Web
pub mod Settings
pub mod Published
