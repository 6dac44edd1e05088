-- ===== src/Protocol.antt =====
-- What the server and the client share: the message identifiers, the players, and the reading of a
-- packet's identifier.
mod MessageId
mod PlayerData
mod Identify
pub use MessageId.*
pub use PlayerData.*
pub use Identify.*
unfoldable pub use PlayerData.{get_string_from_class, new_player}
unfoldable pub use Identify.{get_packet_identifier}
