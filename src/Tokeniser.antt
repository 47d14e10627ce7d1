-- ===== src/Tokeniser.antt =====
-- tokeniser: the tokens of a source file.
pub mod Token
pub mod Cursor
pub mod Read
pub mod Number
pub mod Text
pub mod Step
pub mod Place
pub mod Lexemes
pub mod Settles
pub mod Termination
pub mod Endless
pub mod Numerals
pub mod RoundTrip
pub mod Tests
