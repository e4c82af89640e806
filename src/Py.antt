-- ===== src/Py.antt =====
-- The parts of Python that the model stands on: the values of a JSON document, dicts and
-- exceptions.
pub mod Dict
pub mod Value
pub mod Raise
pub mod Text
pub mod Order
