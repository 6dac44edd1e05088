-- ===== src/Client/Packets/Health.antt =====
-- RRPG/RRPG.cpp: what `OnPlayersHealthUpdated` leaves behind.
use rrpg.Common.{
  if◌then◌else◌, List, [], ◌∷◌, some, ◌≡◌, refl, inl, inr, ok, ◌>>=◌, ℤ, is_positive, Chars,
  chars_eq, Bool-cases, codes,
}
use rrpg.RakNet.{Effect, print}
use rrpg.Protocol.{Player}
use rrpg.Client
use rrpg.Client.Packets.{take_health, update_health, health_lines, own_health, apply_health}

health_lines_lem :
    (name : Chars) (health : ℤ) (players : List Player) (c : Client.Client)
    → (out : List Effect) × (health_lines name health players c ≡ ok (tt, record c { out = out }))
unfolding health_lines ◌>>=◌ Client.emit
health_lines_lem name health [] c = (c.out, refl)
health_lines_lem name health (player ∷ players) c = elim (Bool-cases (chars_eq player.name name)) [
  | inl same ↦ rw (same, ◌>>=◌) (health_lines_lem name health players _)
  | inr other ↦ rw (other, ◌>>=◌) (health_lines_lem name health players c)
]

-- The client's own player, by name.
abbrev pub own_update : Chars → ℤ → Player → Player
own_update name health player =
    if chars_eq player.name name then take_health health player else player

own_health_lem :
    (name : Chars) (health : ℤ) (c : Client.Client)
    → (out : List Effect) × (own_health name health c
        ≡ ok (tt, record c { player = own_update name health c.player; out = out }))
unfolding own_health ◌>>=◌ Client.emit
own_health_lem name health c = elim (Bool-cases (chars_eq c.player.name name)) [
  | inl same ↦ elim (Bool-cases (is_positive health)) [
    | inl alive ↦ (c.out, rw (same, ◌>>=◌) (rw alive))
    | inr dead ↦ (print (codes "You are dead.\n") ∷ c.out, rw (same, ◌>>=◌) (rw dead))
  ]
  | inr other ↦ (c.out, rw (other, ◌>>=◌))
]

pub apply_health_lem :
    (name : Chars) (health : ℤ) (c : Client.Client)
    → (out : List Effect) × (apply_health name (some health) c
        ≡ ok (
          tt,
          record c {
            players = update_health name health c.players;
            player = own_update name health c.player;
            out = out;
          },
        ))
unfolding apply_health ◌>>=◌
apply_health_lem name health c =
    let updated : Client.Client = record c { players = update_health name health c.players } in
    let (lines, printed) = health_lines_lem name health c.players updated in
    let (out, owned) = own_health_lem name health (record updated { out = lines }) in
    (out, rw (printed, ◌>>=◌) owned)
