-- ===== src/Session/Pace/Received.antt =====
-- RRPG/RRPG.cpp: what arrives gives the client no turn, beside `S_TAKE_TURN`.
use rrpg.Common.{
  ℕ, zero, suc, ◌+◌, Bool, Option, none, some, List, [], ◌∷◌, inl, inr, pure, modify, arith, Keeps,
  Keeps-if, Keeps-bind, Keeps-modify, keeps_rules, Ends, Chars, chars_eq, Option-cases, ℤ,
  is_positive, Result, ok, fault,
}
use rrpg.RakNet.{RakNet, RakNetLaws, Bits, Packet}
use rrpg.Protocol.{Player, c_intro}
use rrpg.Client.{NetworkState, ns_lobby}
use rrpg.Client.Packets.{
  read_into, use_of, on_game_start, on_game_over, on_connection_accepted, print_list,
  print_stats_list, read_entries, add_entry, health_lines, own_health, apply_health,
}
use rrpg.Client.Dispatch.{lift, print_data, free_or_hang}
use rrpg.Session.Pace.{IsWithin}
use rrpg.Session.Pace.Typed.{emit-IsWithin, print-IsWithin, prints-IsWithin, free_packet}

module _ (n : ℕ) where
  pub network-IsWithin :
      (state : NetworkState) → Keeps (IsWithin n) (modify (λ s. record s { network_state = state }))
  network-IsWithin state = Keeps-modify _ λ s h. h

  pub started-IsWithin : Keeps (IsWithin n) on_game_start
  unfolding on_game_start
  started-IsWithin = Keeps-bind _ _ (Keeps-modify _ λ s h. h) λ _. print-IsWithin n _

  pub over-IsWithin : Keeps (IsWithin n) on_game_over
  unfolding on_game_over
  over-IsWithin = Keeps-bind _ _ (Keeps-modify _ λ s h. h) λ _. print-IsWithin n _

  pub print_data-IsWithin : (o : Option Chars) → Keeps (IsWithin n) (print_data o)
  print_data-IsWithin none = search keeps_rules
  print_data-IsWithin (some text) = print-IsWithin n _

  pub free-IsWithin : (o : Option ℕ) → Keeps (IsWithin n) (free_or_hang o)
  free-IsWithin none = search keeps_rules
  free-IsWithin (some port) = search keeps_rules

  pub use_of-IsWithin : {A : Type 0} (o : Option A) → Keeps (IsWithin n) (use_of o)
  use_of-IsWithin none = search keeps_rules
  use_of-IsWithin (some a) = search keeps_rules

  pub lift-IsWithin : {A : Type 0} (r : Result A) → Keeps (IsWithin n) (lift r)
  unfolding lift
  lift-IsWithin (ok a) = record { at = λ s h. h }
  lift-IsWithin (fault e) = record { at = λ s h. tt }

  lines-IsWithin :
      (name : Chars) (health : ℤ) (players : List Player)
      → Keeps (IsWithin n) (health_lines name health players)
  unfolding health_lines
  lines-IsWithin name health [] = search keeps_rules
  lines-IsWithin name health (player ∷ players) =
      Keeps-bind _ _
        (Keeps-if (chars_eq player.name name) _ (pure tt) (print-IsWithin n _) (search keeps_rules))
        λ _. lines-IsWithin name health players

  own-IsWithin : (name : Chars) (health : ℤ) → Keeps (IsWithin n) (own_health name health)
  unfolding own_health
  own-IsWithin name health = Keeps-bind _ _ (search keeps_rules) λ s.
      Keeps-if (chars_eq s.player.name name) _ (pure tt)
        (Keeps-bind _ _ (Keeps-modify _ λ t h. h)
          λ _. Keeps-if (is_positive health) (pure tt) _ (search keeps_rules) (print-IsWithin n _))
        (search keeps_rules)

  pub health-IsWithin : (name : Chars) (o : Option ℤ) → Keeps (IsWithin n) (apply_health name o)
  unfolding apply_health
  health-IsWithin name none = search keeps_rules
  health-IsWithin name (some health) = Keeps-bind _ _ (search keeps_rules) λ s.
      Keeps-bind _ _ (Keeps-modify _ λ t h. h)
        λ _. Keeps-bind _ _ (lines-IsWithin name health s.players) λ _. own-IsWithin name health

  module _ (net : RakNet) (laws : RakNetLaws net) where
    pub accepted-IsWithin : (p : Packet) → Keeps (IsWithin n) (on_connection_accepted net p)
    unfolding on_connection_accepted
    accepted-IsWithin p = Keeps-bind _ _ (print-IsWithin n _) λ _.
        Keeps-bind _ _ (network-IsWithin ns_lobby) λ _. Keeps-bind _ _ (prints-IsWithin n) λ _.
          Keeps-bind _ _ (search keeps_rules) λ s.
            emit-IsWithin n _
              (free_packet net laws c_intro _ (omega arith) (omega arith) (omega arith))

    pub list-loop :
        (left i : ℕ) (old : Option Bool) (bits : Bits)
        → Keeps (IsWithin n) (print_list net left i old bits)
    unfolding print_list
    list-loop zero i old bits = record { at = λ s h. h }
    list-loop (suc left) i old bits = record {
      at = λ s h.
          let (name, after_name) = net.decode_string 256 bits in
          let (ready, rest) = read_into (net.read_bool after_name) old after_name in
          elim (Option-cases ready) [
            | inl unset ↦ rw (unset, Ends) tt
            | inr (r, e) ↦
                rw (e, Ends) ((list-loop left (i + 1) (some r) rest).at _ (omega (arith, h)))
          ];
    }

    pub stats-loop :
        (left i : ℕ) (old_class : Option ℕ) (old_health : Option ℤ) (bits : Bits)
        → Keeps (IsWithin n) (print_stats_list net left i old_class old_health bits)
    unfolding print_stats_list
    stats-loop zero i old_class old_health bits = record { at = λ s h. h }
    stats-loop (suc left) i old_class old_health bits = record {
      at = λ s h.
          let (name, after_name) = net.decode_string 256 bits in
          let (class, after_class) = read_into (net.read_byte after_name) old_class after_name in
          let (health, rest) = read_into (net.read_int after_class) old_health after_class in
          elim (Option-cases class) [
            | inl unset ↦ rw (unset, Ends) tt
            | inr (c, e) ↦ elim (Option-cases health) [
              | inl unset ↦ rw (e, unset, Ends) tt
              | inr (z, e') ↦
                  rw (e, e', Ends)
                    ((stats-loop left (i + 1) (some c) (some z) rest).at _ (omega (arith, h)))
            ]
          ];
    }

    pub entries-loop :
        (left : ℕ) (old_health : Option ℤ) (old_ready : Option Bool) (old_job : Option ℕ)
        (bits : Bits)
        → Keeps (IsWithin n) (read_entries net left old_health old_ready old_job bits)
    unfolding read_entries
    entries-loop zero old_health old_ready old_job bits = record { at = λ s h. h }
    entries-loop (suc left) old_health old_ready old_job bits = record {
      at = λ s h.
          let (name, after_name) = net.decode_string 256 bits in
          let (health, after_health) = read_into (net.read_int after_name) old_health after_name in
          let (ready, after_ready) =
            read_into (net.read_bool after_health) old_ready after_health in
          let (job, rest) = read_into (net.read_byte after_ready) old_job after_ready in
          elim (Option-cases health) [
            | inl unset ↦ rw (unset, Ends) tt
            | inr (z, e) ↦ elim (Option-cases ready) [
              | inl unset ↦ rw (e, unset, Ends) tt
              | inr (r, e') ↦ elim (Option-cases job) [
                | inl unset ↦ rw (e, e', unset, Ends) tt
                | inr (j, e'') ↦
                    rw (e, e', e'', Ends)
                      ((entries-loop left (some z) (some r) (some j) rest).at
                        (add_entry name z r j s) h)
              ]
            ]
          ];
    }
