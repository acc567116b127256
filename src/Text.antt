-- ===== src/Text.antt =====
-- Rust's `String` and `&str` as lists of code points, with the standard library's methods that the
-- program calls on them: `==`, `split`, `split_once`, `rsplit_once`, `join`, `starts_with`,
-- `ends_with`, `strip_prefix`, `contains`, `trim` and `eq_ignore_ascii_case`.
mod Defs
pub mod Words
pub mod Decimal
pub mod Utf8
pub mod Replace
unfoldable pub use Defs.{
  Text, codes, text_eq, cons_head, split, split_once, rsplit_once, join, starts_with, ends_with,
  strip_prefix, trim_start_matches, to_ascii_lowercase, eq_ignore_ascii_case, is_whitespace,
  trim_start, trim,
}
pub use Defs.{text_eq_iff, text_eq_self, text_eq_cases, text_eq-false}
