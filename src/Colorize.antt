-- ===== src/Colorize.antt =====
-- include/yk/colorize.hpp
pub mod Result
pub mod Bytes
pub mod Numbers
pub mod Colors
pub mod Emphasis
pub mod Parse
pub mod Render
pub mod Scanner
pub mod Samples
pub mod Api
