-- ===== src/Go.antt =====
-- What the source uses of Go's standard library: strconv.Quote, decimal print, and functions of
-- package strings. A text is a sequence of Unicode characters (valid UTF-8).
pub mod Strconv
pub mod Strings
