-- ===== src/Python.antt =====
-- What the program uses of Python's language and standard library, as executable definitions:
-- big-endian integers, `bytes.hex`, `base64`, UTF-8 and decimal printing. A `bytes` value is a list
-- of numbers below 256, a `str` is its list of code points.
pub mod Bytes
pub mod Hex
pub mod Base64
pub mod Utf8
pub mod Json
pub mod Decimal
