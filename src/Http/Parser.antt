-- ===== src/Http/Parser.antt =====
-- The parts of src/KernelHttpLib/http/HttpParser.cpp, each in a child module. A position in the data
-- is the characters from there on, which are their codes, from 0 to 255.
pub mod Chars
pub mod Number
pub mod Lines
pub mod Parameters
pub mod Trailer
pub mod Chunked
pub mod StatusLine
pub mod Fields
mod Examples
