-- ===== src/Examples.antt =====
-- Concrete values of what the models take as parameters, and the runs that use them.
pub mod Codec
pub mod Tokens64
pub mod Runs
pub mod Moves
pub mod Guards
pub mod Speech
pub mod Rooms
pub mod Facade
