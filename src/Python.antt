-- ===== src/Python.antt =====
-- The parts of Python that the program uses: exceptions, values and dictionaries, text, hexadecimal
-- numbers, `round`, and UUIDs.
pub mod Exc
pub mod Action
pub mod Dict
pub mod Value
pub mod Text
pub mod Round
pub mod Bytes
pub mod Uuid
