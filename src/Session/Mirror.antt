-- ===== src/Session/Mirror.antt =====
-- The client's copy of the players against the server's.
use rrpg.Common.{ℕ, List, [], ◌∷◌, ◌≡◌}
use rrpg.Protocol.{Player}

-- What the client knows of a player is what the server holds.
pub record SamePlayer (server client : Player) : Type 0 where
  pub same_name : client.name ≡ server.name
  pub same_health : client.health ≡ server.health
  pub same_job : client.job ≡ server.job
  pub same_dead : client.dead ≡ server.dead

-- The client lists the server's players in the same order.
abbrev pub Mirrors : List (ℕ × Player) → List Player → Type 0
Mirrors [] [] = Unit
Mirrors [] (_ ∷ _) = ⊥
Mirrors (_ ∷ _) [] = ⊥
Mirrors ((id, player) ∷ players) (copy ∷ copies) = SamePlayer player copy × Mirrors players copies
