-- ===== src/Server/Battle.antt =====
-- The fight as the players see it, and what one action and the turn behind it may make of it. The
-- view forgets the order of the map, the names, the classes and everything that is sent.
pub mod Alive
pub mod Next
pub mod Refines
use mathlib.Core.Option
use rrpg.Common.{
  List, [], ◌∷◌, ℕ, ◌==◌, if◌then◌else◌, set, Bool, true, false, not, Option, some, none, ◌≡◌, ◌≢◌,
  ℤ, ◌+ℤ◌, is_positive,
}
use rrpg.Protocol.{Player, gs_game_over}
use rrpg.StdMap
use rrpg.Server.{Server}
use rrpg.Server.Actions.Outcome.{IsEffect}

pub record Fighter : Type 0 where
  pub health : ℤ
  pub fallen : Bool

pub record Battle : Type 0 where
  pub fighters : ℕ → Option Fighter
  pub turn : ℕ
  pub over : Bool

abbrev pub fighter : Player → Fighter
fighter player = record { health = player.health; fallen = player.dead }

abbrev pub view : Server → Battle
view s = record {
  fighters = λ id. Option.map fighter (StdMap.lookup id s.players);
  turn = s.current_player_turn;
  over = s.game_state == gs_game_over;
}

-- Nobody gets up again.
abbrev pub struck : ℤ → Fighter → Fighter
struck diff f = record {
  health = f.health +ℤ diff;
  fallen = if is_positive (f.health +ℤ diff) then f.fallen else true;
}

abbrev pub Stands : Battle → ℕ → Type 0
Stands b id = (f : Fighter) × (b.fighters id ≡ some f) × (f.fallen ≡ false)

-- One action: a fighter's health changes by an amount that the action permits, and then either the
-- turn passes to another fighter who stands, and not as the only one, or the last one who stands
-- wins.
pub data Move (action target : ℕ) (b c : Battle) : Type 0 where
  passes :
      (diff : ℤ) (f : Fighter)
      → IsEffect action diff
      → b.fighters target ≡ some f
      → c.fighters ≡ set target (some (struck diff f)) b.fighters
      → c.over ≡ b.over
      → c.turn ≢ b.turn
      → Stands c c.turn
      → (other : ℕ) → other ≢ c.turn
      → Stands c other
      → Move action target b c
  wins :
      (diff : ℤ) (f : Fighter)
      → IsEffect action diff
      → b.fighters target ≡ some f
      → c.fighters ≡ set target (some (struck diff f)) b.fighters
      → c.over ≡ true
      → Stands c c.turn
      → ((id : ℕ) → Stands c id → id ≡ c.turn)
      → Move action target b c

-- The moves of a list of actions and their targets, one after the other.
pub data Moves : List (ℕ × ℕ) → Battle → Battle → Type 0 where
  no_move : {b : Battle} → Moves [] b b
  one_move :
      {b c d : Battle} (action target : ℕ) {acts : List (ℕ × ℕ)}
      → Move action target b c
      → Moves acts c d
      → Moves ((action, target) ∷ acts) b d
