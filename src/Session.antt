-- ===== src/Session.antt =====
-- RRPG Server/server.cpp and RRPG/RRPG.cpp together: a packet of one side on the other side.
pub mod Wire
pub mod Mirror
pub mod Intro
pub mod MainGame
pub mod Health
pub mod Chat
pub mod Action
pub mod Battle
pub mod Lists
pub mod Talk
pub mod Choice
pub mod Join
pub mod Lobby
pub mod Selection
pub mod Opening
pub mod Pace
