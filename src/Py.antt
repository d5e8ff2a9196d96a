-- ===== src/Py.antt =====
-- The parts of Python that the modelled code uses: dynamic values, numbers and texts.
pub mod Float
pub mod Value
pub mod Text
pub mod Decimal
pub mod Base64
pub mod Equality
