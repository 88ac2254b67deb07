-- ===== src/Js.antt =====
-- What the sources use of the JavaScript language and its standard library.
pub mod Text
pub mod Value
pub mod Number
pub mod Map
pub mod Result
pub mod Show
pub mod Coerce
pub mod Stringify
pub mod Ratio
