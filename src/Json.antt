-- ===== src/Json.antt =====
-- JSON documents: the data, dict operations and equality.
mod Defs
mod Equality
mod Encoded
unfoldable pub use Defs.*
unfoldable pub use Equality.{same}
unfoldable pub use Encoded.{encoded_length, text_length, number_length}
