-- ===== src/Unicode.antt =====
-- src/lib/base/Unicode.cpp: UTF-8, UCS-2 and UTF-16 text. A string is the list of its bytes, and a
-- pointer with its count `n` is the list of the bytes left. The `errors` flag comes back as a
-- Boolean beside the text. The machine is little-endian.
pub mod Utf8
pub mod Utf16
pub mod Progress
pub mod Encoded
pub mod Canonical
pub mod Validity
pub mod Transcode
pub mod Ucs2
