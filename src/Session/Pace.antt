-- ===== src/Session/Pace.antt =====
-- RRPG/RRPG.cpp: how often a client chooses or acts, whatever is typed and whenever it is asked.
pub mod Typed
pub mod Received
pub mod Run
pub mod AtMost
use rrpg.Common.{
  ℕ, zero, suc, ◌+◌, ◌≤◌, ◌<◌, ◌==◌, ◌||◌, if◌then◌else◌, Bool, true, false, List, [], ◌∷◌, ◌++◌,
  ◌≡◌, refl, ◌⊎◌, M, pure, ◌>>◌, ◌>>=◌, arith, Result, ok, fault,
}
use rrpg.RakNet.{
  RakNet, Packet, Effect, send, print, close_connection, startup, set_maximum_incoming_connections,
  set_occasional_ping, connect,
}
use rrpg.Protocol.{c_job_chosen, c_action_taken, s_take_turn, get_packet_identifier}
use rrpg.Client.{Client}
use rrpg.Client.Dispatch.{Event, receive, typed, tick, handle}

-- The bytes of a choice of a class or of an action.
abbrev pub is_turn : List ℕ → Bool
is_turn [] = false
is_turn (b ∷ bytes) = b == c_job_chosen || b == c_action_taken

abbrev pub one_if : Bool → ℕ
one_if true = 1
one_if false = 0

abbrev pub turn_of : Effect → ℕ
turn_of (send bytes target) = one_if (is_turn bytes)
turn_of (print text) = 0
turn_of (close_connection address) = 0
turn_of (startup n port) = 0
turn_of (set_maximum_incoming_connections n) = 0
turn_of set_occasional_ping = 0
turn_of (connect address port) = 0

-- How many choices and actions have been sent.
abbrev pub turns_sent : List Effect → ℕ
turns_sent [] = 0
turns_sent (e ∷ out) = turn_of e + turns_sent out

-- Those, and the one that the client may still send.
abbrev pub spent : Client → ℕ
spent c = turns_sent c.out + one_if c.my_turn

abbrev pub IsWithin : ℕ → Client → Type 0
IsWithin n c = spent c ≤ n

-- How often the server has said that it is the client's turn.
abbrev pub is_asking : Result ℕ → ℕ
is_asking (ok id) = one_if (id == s_take_turn)
is_asking (fault f) = 0

abbrev pub asks_of : Event → ℕ
asks_of (receive p) = is_asking (get_packet_identifier p)
asks_of (typed line) = 0
asks_of tick = 0

abbrev pub turns_given : List Event → ℕ
turns_given [] = 0
turns_given (e ∷ es) = asks_of e + turns_given es

-- The rounds of the client's threads, in some order.
unfoldable pub client_run : RakNet → ℕ → List Event → M Client (Unit {0})
client_run net fuel [] s = ok (tt, s)
client_run net fuel (e ∷ es) s = elim (handle net fuel e s) [
  | fault f ↦ fault f
  | ok (_, s') ↦ client_run net fuel es s'
]
