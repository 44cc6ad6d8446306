-- ===== src/Libft.antt =====
-- 42_libft: the C library of strings, memory and lists that the other programs use.
pub mod Strings
pub mod Split
pub mod Compare
pub mod Find
pub mod Trim
pub mod Numbers
mod Tests
