-- ===== src/Session/Health.antt =====
-- `ModifyHealth` on the server and `OnPlayersHealthUpdated` on the client.
use mathlib.Core.List.{append_assoc}
use mathlib.Core.Path.{subst}
use rrpg.Common.{
  ℕ, ◌+◌, ◌==◌, true, false, List, [], ◌∷◌, ◌++◌, some, ◌≡◌, refl, sym, ap, ◌∙◌, inl, inr, ok,
  length, arith, ℤ, ◌+ℤ◌, fits_int32, All, Chars, chars_eq, chars_eq_refl, chars_eq_comm,
  Bool-cases, Option-cases, fault, Fault,
}
use rrpg.RakNet.{RakNet, RakNetLaws, Bits, Packet, Effect, send, everyone}
use rrpg.Protocol.{Player, s_update_player_hp}
use rrpg.StdMap
use rrpg.StdMap.Order.{All-lookup}
use rrpg.Server
use rrpg.Server.Broadcast.{add_health, health_packet, modify_health}
use rrpg.Server.Broadcast.Outcome.{
  modify_health_fits, modify_health_overflows, modify_health_missing,
}
use rrpg.Server.Invariant.{IsWellFormed, Inv}
use rrpg.Server.Invariant.Parts.{add_health-IsWellFormed}
use rrpg.Client
use rrpg.Client.Packets.{take_health, update_health, apply_health, on_players_health_updated}
use rrpg.Client.Packets.Health.{own_update, apply_health_lem}
use rrpg.Session.Wire.{identify_lem, payload_lem, client-dispatch}
use rrpg.Session.Mirror.{SamePlayer, Mirrors}

-- No two players of the server have one name.
abbrev Unnamed : Chars → List (ℕ × Player) → Type 0
Unnamed name players = All (λ entry. chars_eq entry.1.name name ≡ false) players

abbrev pub HasDistinctNames : List (ℕ × Player) → Type 0
HasDistinctNames [] = Unit
HasDistinctNames ((id, player) ∷ players) = Unnamed player.name players × HasDistinctNames players

add_health-name : (diff : ℤ) (player : Player) → (add_health diff player).name ≡ player.name
add_health-name diff player = ground arith

-- The server's player after the change and the client's copy after the packet.
add_health-SamePlayer :
    (diff : ℤ) (player copy : Player)
    → SamePlayer player copy
    → SamePlayer (add_health diff player) (take_health (add_health diff player).health copy)
add_health-SamePlayer diff player copy same = ground arith

update_health-Unnamed :
    (name : Chars) (health : ℤ) (players : List (ℕ × Player)) (copies : List Player)
    → Unnamed name players
    → Mirrors players copies
    → Mirrors players (update_health name health copies)
unfolding update_health
update_health-Unnamed name health [] [] fresh m = tt
update_health-Unnamed name health [] (copy ∷ copies) fresh m = absurd m
update_health-Unnamed name health (_ ∷ players) [] fresh m = absurd m
update_health-Unnamed name health ((id, player) ∷ players) (copy ∷ copies) fresh m =
    let other : chars_eq copy.name name ≡ false =
      ap (λ n. chars_eq n name) m.0.same_name ∙ fresh.0 in
    rw other (m.0, update_health-Unnamed name health players copies fresh.1 m.1)

-- The client's loop by name changes the copy of just the player that the server changes by key.
update_health-Mirrors :
    (id : ℕ) (diff : ℤ) (player : Player) (players : List (ℕ × Player)) (copies : List Player)
    → StdMap.lookup id players ≡ some player
    → HasDistinctNames players
    → Mirrors players copies
    → Mirrors
        (StdMap.adjust id (add_health diff) players)
        (update_health player.name (add_health diff player).health copies)
unfolding StdMap.lookup StdMap.adjust update_health
update_health-Mirrors id diff player [] copies found distinct m = ground arith
update_health-Mirrors id diff player (_ ∷ players) [] found distinct m = absurd m
update_health-Mirrors id diff player ((j, q) ∷ players) (copy ∷ copies) found distinct m =
    elim (Bool-cases (j == id)) [
      | inl hit ↦
          let here : q ≡ player = ground arith in
          let same : chars_eq copy.name player.name ≡ true =
            rw (m.0.same_name, here) (chars_eq_refl player.name) in
          rw (hit, same)
            (
              subst
                  (λ x.
                    SamePlayer (add_health diff q) (take_health (add_health diff x).health copy))
                  here (add_health-SamePlayer diff q copy m.0),
              update_health-Unnamed player.name (add_health diff player).health players copies
                  (subst (λ x. Unnamed x.name players) here distinct.0) m.1,
            )
      | inr miss ↦
          let there : StdMap.lookup id players ≡ some player = ground arith in
          let other : chars_eq copy.name player.name ≡ false =
            ap (λ n. chars_eq n player.name) m.0.same_name
            ∙ chars_eq_comm q.name player.name
            ∙ All-lookup (λ entry. chars_eq entry.1.name q.name ≡ false) id players player there
                distinct.0 in
          rw (miss, other)
            (m.0, update_health-Mirrors id diff player players copies there distinct.1 m.1)
    ]

ok≢fault : {A : Type 0} {a : A} {e : Fault} → ok a ≡ fault e → ⊥
ok≢fault h = cc

module _ (net : RakNet) (laws : RakNetLaws net) where
  health_packet_read :
      (p : Packet) (player : Player) (c : Client.Client)
      → p.bytes ≡ health_packet net player
      → IsWellFormed player
      → on_players_health_updated net p c ≡ apply_health player.name (some player.health) c
  unfolding on_players_health_updated
  health_packet_read p player c sent w =
      let text : Bits = net.encode_string player.name (length player.name + 1) in
      let (pad, stream) =
        payload_lem net laws p s_update_player_hp (text ++ net.int_bits player.health) sent
          (omega arith) in
      ground (
        arith,
        stream ∙ append_assoc text (net.int_bits player.health) pad,
        laws.decode-encode player.name (length player.name + 1) 256
            (net.int_bits player.health ++ pad) w.terminated (omega arith) w.short,
        laws.read_int_lem player.health pad w.fits,
      )

  -- The announcement of a new health, as the client takes it.
  pub health_received :
      (p : Packet) (player : Player) (c : Client.Client)
      → p.bytes ≡ health_packet net player
      → IsWellFormed player
      → (out : List Effect) × (Client.Dispatch.handle_packet net p c
          ≡ ok (
            tt,
            record c {
              players = update_health player.name player.health c.players;
              player = own_update player.name player.health c.player;
              out = out;
            },
          ))
  health_received p player c sent w =
      let (out, applied) = apply_health_lem player.name player.health c in
      (
        out,
        client-dispatch net p s_update_player_hp c
              (identify_lem net laws p s_update_player_hp _ sent (omega arith) (omega arith))
              (omega arith)
            ∙ to_health_update p c
            ∙ health_packet_read p player c sent w
            ∙ applied,
      )
    where
      to_health_update :
          (p : Packet) (c : Client.Client)
          → Client.Dispatch.server_packet net s_update_player_hp p c
            ≡ on_players_health_updated net p c
      to_health_update p c = unfold Client.Dispatch.server_packet in refl

  -- After a change of health on the server and the client's handling of the message that it ends
  -- with, the client's copy agrees with the server's players again, if it did before. The server
  -- satisfies its invariant, and no two of its players share a name.
  pub modify_health-Mirrors :
      (s s' : Server.Server) (id : ℕ) (diff : ℤ) (p : Packet) (c : Client.Client)
      (rest : List Effect)
      → Inv s
      → HasDistinctNames s.players
      → Mirrors s.players c.players
      → modify_health net id diff s ≡ ok (tt, s')
      → s'.out ≡ send p.bytes everyone ∷ rest
      → (c' : Client.Client) × (Client.Dispatch.handle_packet net p c ≡ ok (tt, c'))
        × Mirrors s'.players c'.players
  modify_health-Mirrors s s' id diff p c rest v distinct m changed sent =
      elim (Option-cases (StdMap.lookup id s.players)) [
        | inl missing ↦
            absurd (ok≢fault (sym changed ∙ modify_health_missing net id diff s missing))
        | inr (player, found) ↦ elim (Bool-cases (fits_int32 (player.health +ℤ diff))) [
          | inl fits ↦
              let harmed : Player = add_health diff player in
              let w : IsWellFormed player =
                All-lookup (λ entry. IsWellFormed entry.1) id s.players player found
                  v.well_formed in
              let ran = modify_health_fits net id player diff s found fits in
              let players_after : s'.players ≡ StdMap.adjust id (add_health diff) s.players =
                ground (arith, ran) in
              let bytes_sent : p.bytes ≡ health_packet net harmed = ground (arith, ran) in
              let (out, handled) =
                health_received p harmed c bytes_sent
                  (add_health-IsWellFormed diff player fits w) in
              (
                record c {
                  players = update_health harmed.name harmed.health c.players;
                  player = own_update harmed.name harmed.health c.player;
                  out = out;
                },
                handled,
                rw (players_after, add_health-name diff player)
                    (update_health-Mirrors id diff player s.players c.players found distinct m),
              )
          | inr over ↦
              absurd
                (ok≢fault (sym changed ∙ modify_health_overflows net id player diff s found over))
        ]
      ]
