-- ===== src/Protocol/PlayerData.antt =====
-- Include/RRPG_Player.h. `CharacterClass` and `Action` have an unsigned char below them and are
-- read from the network unchecked, so that a variable of either can hold any byte.
use rrpg.Common.{ℕ, ℤ, pos, Bool, false, Chars, codes, ◌==◌, if◌then◌else◌}

abbrev pub wizard : ℕ
wizard = 0

abbrev pub warrior : ℕ
warrior = 1

abbrev pub assassin : ℕ
assassin = 2

abbrev pub heal : ℕ
heal = 0

abbrev pub heal_rng : ℕ
heal_rng = 1

abbrev pub attack : ℕ
attack = 2

abbrev pub atk_rng : ℕ
atk_rng = 3

unfoldable pub get_string_from_class : ℕ → Chars
get_string_from_class cc =
    if cc == wizard
    then codes "Wizard"
    else if cc == warrior
    then codes "Warrior"
    else if cc == assassin
    then codes "Assassin"
    else codes "Jobless"

pub record Player : Type 0 where
  pub name : Chars
  pub health : ℤ
  pub ready : Bool
  pub job : ℕ
  pub dead : Bool

-- `Player{ name }`: the other members take their initialisers, and `job`, which has none, is 0.
unfoldable pub new_player : Chars → Player
new_player name = record {
  name = name;
  health = pos 100;
  ready = false;
  job = wizard;
  dead = false;
}
