-- ===== src/Models.antt =====
-- src/openhdo_linker/models.py: the typed values shared by the boundary and the drivers. A frozen
-- dataclass is a record, and `X.new` is its construction with the checks of `__post_init__`.
pub mod Rgb
pub mod Light
pub mod Descriptor
pub mod Identifier
