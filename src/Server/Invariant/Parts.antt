-- ===== src/Server/Invariant/Parts.antt =====
-- The parts of the handlers keep the invariant.
use rrpg.Common.{
  ℕ, ◌+◌, ◌%◌, ◌<◌, ◌≤◌, ◌==◌, ltb, if◌then◌else◌, Bool, true, false, not, List, [], ◌∷◌, ◌++◌,
  Option, none, some, ◌≡◌, refl, sym, ap, ◌∙◌, ◌≢◌, ◌⊎◌, inl, inr, M, Result, ok, fault, hang,
  Fault, ◌>>=◌, pure, raise, get, modify, guard, Ends, Keeps, keeps_rules, Keeps-bind, Keeps-modify,
  Keeps-if, Keeps-guard, Keeps-pure, Keeps-raise, Chars, codes, length, snprintf, arith, Bool-cases,
  Option-cases, ℤ, ◌+ℤ◌, fits_int32, is_positive, All,
}
use rrpg.RakNet.{RakNet, Effect}
use rrpg.Protocol.{Player}
use rrpg.StdMap
use rrpg.StdMap.{keys}
use rrpg.StdMap.Order.{adjust-IsSorted, keys-adjust, All-adjust-All}
use rrpg.Server.{Server, emit, get_player, get_address_from_id, get_random_integer}
use rrpg.Server.Broadcast.{broadcast_message, send_turn, add_health}
use rrpg.Server.Turn.{lift}
use rrpg.Server.Invariant.{IsWellFormed, Inv}

pub emit-Keeps : (e : Effect) → Keeps Inv (emit e)
unfolding emit
emit-Keeps e = record { at = λ s h. h }

pub get_player-Keeps : (id : ℕ) → Keeps Inv (get_player id)
unfolding get_player
get_player-Keeps id = record { at = λ s h. ground arith }

pub get_address-Keeps : (id : ℕ) → Keeps Inv (get_address_from_id id)
unfolding get_address_from_id
get_address-Keeps id = record { at = λ s h. ground arith }

pub get_random-Keeps : (low high : ℕ) → Keeps Inv (get_random_integer low high)
unfolding get_random_integer
get_random-Keeps low high = record { at = λ s h. h }

pub lift-Keeps : {A : Type 0} (r : Result A) → Keeps Inv (lift r)
unfolding lift
lift-Keeps (ok a) = record { at = λ s h. h }
lift-Keeps (fault e) = record { at = λ s h. tt }

pub game_state-Keeps : (state : ℕ) → Keeps Inv (modify (λ s. record s { game_state = state }))
game_state-Keeps state = Keeps-modify (λ s. record s { game_state = state }) (λ s h. h)

pub ruleset part_rules = (
  keeps_rules, emit-Keeps, get_player-Keeps, get_address-Keeps, get_random-Keeps, lift-Keeps,
  game_state-Keeps,
)

pub broadcast-Keeps : (text : Chars) → Keeps Inv (broadcast_message text)
unfolding broadcast_message
broadcast-Keeps text = search part_rules

pub send_turn-Keeps : (net : RakNet) (id : ℕ) → Keeps Inv (send_turn net id)
unfolding send_turn
send_turn-Keeps net id = search part_rules

-- A write to a player that leaves every player well formed.
pub adjust-IsConsistent :
    (s : Server) (id : ℕ) (f : Player → Player)
    → ((player : Player) → IsWellFormed player → IsWellFormed (f player))
    → Inv s
    → Inv (record s { players = StdMap.adjust id f s.players })
adjust-IsConsistent s id f keep v = record {
  sorted = adjust-IsSorted id f s.players v.sorted;
  addresses_sorted = v.addresses_sorted;
  same_keys = keys-adjust id f s.players ∙ v.same_keys;
  well_formed =
      All-adjust-All (λ entry. IsWellFormed entry.1) id f s.players (λ j player w. keep player w)
        v.well_formed;
  counted = v.counted;
  in_turn = λ started. rw (keys-adjust id f s.players) (v.in_turn started);
}

pub add_health-IsWellFormed :
    (diff : ℤ) (player : Player)
    → fits_int32 (player.health +ℤ diff) ≡ true
    → IsWellFormed player
    → IsWellFormed (add_health diff player)
add_health-IsWellFormed diff player fits w = ground arith
