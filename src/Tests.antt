-- ===== src/Tests.antt =====
-- A concrete network for the tests, concrete players and states, and the theorems applied to them.
pub mod Bits
pub mod Net
pub mod Data
pub mod ServerCases
pub mod SessionCases
pub mod GameCases
pub mod ChoiceCases
pub mod RunCases
pub mod TurnCases
