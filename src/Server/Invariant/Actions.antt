-- ===== src/Server/Invariant/Actions.antt =====
-- RRPG Server/server.cpp: the invariant along the choice of a character and the actions.
use rrpg.Common.{
  ℕ, ◌<◌, true, List, [], ◌∷◌, Option, none, some, ◌≡◌, refl, inl, inr, ◌>>=◌, get, modify, Ends,
  Keeps, Keeps-bind, Keeps-modify, Option-cases,
}
use rrpg.RakNet.{RakNet, RakNetLaws, Packet, Bits}
use rrpg.Protocol.{Player}
use rrpg.StdMap
use rrpg.StdMap.{keys}
use rrpg.StdMap.Order.{has_key-find}
use rrpg.Server.{Server}
use rrpg.Server.Handlers.{sender, payload}
use rrpg.Server.Actions.{
  read_byte_into, or_old, or_assert, successor, pass_choice, on_player_job_chosen, perform,
  on_player_action_taken,
}
use rrpg.Server.Invariant.{Inv}
use rrpg.Server.Invariant.Parts.{part_rules, broadcast-Keeps, send_turn-Keeps, adjust-IsConsistent}
use rrpg.Server.Invariant.Game.{modify_health-Keeps, next_turn-Keeps, start_main_game-Keeps}
use rrpg.Server.Invariant.Handlers.{Keeps-get_player, handler_rules}

module _ (net : RakNet) (laws : RakNetLaws net) where
  read_byte_into-lt :
      (bits : Bits) (old : ℕ) → old < 256 → or_old (read_byte_into net bits).0 old < 256
  read_byte_into-lt bits old h = elim (Option-cases (net.read_byte bits)) [
    | inl failed ↦ rw (failed, or_old) h
    | inr ((b, rest), read) ↦ rw (read, or_old) (laws.read_byte-lt bits b rest read)
  ]

  choose-Keeps :
      (id job : ℕ)
      → job < 256
      → Keeps Inv (
          modify (λ s. record s {
            players = StdMap.adjust id (λ old. record old { ready = true; job = job }) s.players;
          }))
  choose-Keeps id job h = Keeps-modify _ λ s v.
      adjust-IsConsistent s id (λ old. record old { ready = true; job = job })
        (λ player w. record {
          fits = w.fits;
          mortal = w.mortal;
          short = w.short;
          terminated = w.terminated;
          class_byte = h;
        })
        v

  -- The end of `OnPlayerJobChosen`.
  pass_choice-Keeps :
      Keeps Inv
        (get >>= λ s. successor (StdMap.find s.current_player_turn s.players) >>= pass_choice net)
  unfolding ◌>>=◌ pass_choice
  pass_choice-Keeps = record {
    at = λ s v. passing s v (StdMap.find s.current_player_turn s.players) refl;
  }
    where
      passing :
          (s : Server)
          → Inv s
          → (it : List (ℕ × Player)) → StdMap.find s.current_player_turn s.players ≡ it
          → Ends ((successor it >>= pass_choice net) s) (λ _. Inv)
      passing s v [] e = tt
      passing s v (x ∷ []) e = (start_main_game-Keeps net).at s v
      passing s v (x ∷ ((id, player) ∷ rest)) e = (send_turn-Keeps net id).at _ (record {
        sorted = v.sorted;
        addresses_sorted = v.addresses_sorted;
        same_keys = v.same_keys;
        well_formed = v.well_formed;
        counted = v.counted;
        in_turn = λ started. has_key-find s.current_player_turn s.players x id player rest e;
      })

  pub on_player_job_chosen-Keeps : (p : Packet) → Keeps Inv (on_player_job_chosen net p)
  unfolding on_player_job_chosen
  on_player_job_chosen-Keeps p = Keeps-get_player (sender net p) _ λ player w.
      Keeps-bind _ _
        (choose-Keeps (sender net p) _ (read_byte_into-lt (payload net p) player.job w.class_byte))
        λ _. Keeps-bind _ _ (broadcast-Keeps _) λ _. pass_choice-Keeps

  or_assert-Keeps : (o : Option ℕ) → Keeps Inv (or_assert o)
  or_assert-Keeps none = search part_rules
  or_assert-Keeps (some id) = search part_rules

  perform-Keeps :
      (action : Option ℕ) (origin : Player) (id : ℕ) (target : Player)
      → Keeps Inv (perform net action origin id target)
  unfolding perform
  perform-Keeps none origin id target = search part_rules
  perform-Keeps (some action) origin id target = search (handler_rules, modify_health-Keeps) depth 9

  pub on_player_action_taken-Keeps : (p : Packet) → Keeps Inv (on_player_action_taken net p)
  unfolding on_player_action_taken
  on_player_action_taken-Keeps p =
      search (handler_rules, or_assert-Keeps, perform-Keeps, next_turn-Keeps) depth 9
