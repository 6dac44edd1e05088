-- ===== src/Session/Opening.antt =====
-- RRPG Server/server.cpp: the players between joining and the main game.
pub mod Whole
use mathlib.Core.Option
use mathlib.Core.Path.{subst}
use rrpg.Common.{
  ℕ, ◌+◌, ◌<◌, ◌==◌, if◌then◌else◌, Bool, true, false, not, List, [], ◌∷◌, ◌++◌, some, none, ◌≡◌,
  refl, sym, ap, ◌∙◌, ◌≢◌, ok, arith, All, Chars, length, inl, inr, Bool-cases, ==_refl, ==_iff,
  List-cases, Ends,
}
use rrpg.RakNet.{RakNet, RakNetLaws, Packet, Effect}
use rrpg.Protocol.{Player, new_player, gs_main, gs_character_select}
use rrpg.StdMap
use rrpg.StdMap.{keys}
use rrpg.StdMap.Order.{IsSorted, has_key, keys-for_each, lookup-for_each, All-for_each}
use rrpg.Server.{Server, construct, is_running, ns_game_started, expected_players}
use rrpg.Server.Turn.{alive_count}
use rrpg.Server.Invariant.{Inv}
use rrpg.Server.Invariant.Step.{run-construct-Inv}
use rrpg.Server.Handlers.Ready.{none_ready}
use rrpg.Server.Dispatch.{Event, run}
use rrpg.Server.Dispatch.Run.{packets_of, run_then}
use rrpg.Session.Join.{IsJoining, joins, joined_players, joined_addresses, join_run}
use rrpg.Session.Join.Players.{
  All-has_key, joined-IsSorted, lookup-joined, All-joined, length-joined,
}
use rrpg.Session.Lobby.{IsReady, IsDistinct}
use rrpg.Session.Selection.{assign, with_class, IsChoice}
use rrpg.Session.Selection.Ends.{selection-ends}

lookup-assign :
    (jobs : ℕ → ℕ) (k : ℕ) (players : List (ℕ × Player))
    → StdMap.lookup k (assign jobs players)
      ≡ Option.map (with_class (jobs k)) (StdMap.lookup k players)
unfolding StdMap.lookup
lookup-assign jobs k [] = refl
lookup-assign jobs k ((j, player) ∷ players) = elim (Bool-cases (j == k)) [
  | inl hit ↦ rw hit (ap (λ i. some (with_class (jobs i) player)) ((==_iff j k).0 hit))
  | inr miss ↦ rw miss (lookup-assign jobs k players)
]

pub keys-assign :
    (jobs : ℕ → ℕ) (players : List (ℕ × Player)) → keys (assign jobs players) ≡ keys players
keys-assign jobs [] = refl
keys-assign jobs ((j, player) ∷ players) = ap (◌∷◌ j) (keys-assign jobs players)

pub count_alive :
    (players : List (ℕ × Player))
    → All (λ e. e.1.dead ≡ false) players
    → alive_count players ≡ length players
count_alive [] alive = refl
count_alive ((j, player) ∷ players) alive = ground (arith, count_alive players alive.1, alive.0)

pub length-none_ready : (players : List (ℕ × Player)) → length (none_ready players) ≡ length players
unfolding StdMap.for_each
length-none_ready [] = refl
length-none_ready ((j, player) ∷ players) = omega (arith, length-none_ready players)

-- A run from the constructor that ends leaves the server in a consistent state.
pub ended-Inv :
    (net : RakNet) (laws : RakNetLaws net) (memory t : Server) (es : List Event)
    → memory.total_connections < 65536
    → run net es (construct memory) ≡ ok (tt, t)
    → Inv t
ended-Inv net laws memory t es h ended =
    subst (λ r. Ends r (λ _. Inv)) ended (run-construct-Inv net laws memory es h)

abbrev pub idle : Player → Player
idle player = record player { ready = false }

module _ (names : ℕ → Chars) (order : List ℕ) where
  pub joined-has_key :
      (P : ℕ × Player → Type 0)
      → ((k : ℕ) → has_key k order ≡ true → P (k, new_player (names k)))
      → All P (joined_players names order [])
  joined-has_key P h =
      All-joined names P order [] (All-has_key (λ k. P (k, new_player (names k))) order h) tt

  pub lookup-order :
      (k : ℕ)
      → StdMap.lookup k (joined_players names order [])
        ≡ (if has_key k order then some (new_player (names k)) else none)
  unfolding StdMap.lookup
  lookup-order k = lookup-joined names k order [] tt refl

  pub length-order : IsDistinct order → length (joined_players names order []) ≡ length order
  unfolding StdMap.lookup
  length-order distinct =
      let h = length-joined names order [] tt distinct (All-has_key _ order (λ k there. refl)) in
      omega (arith, h)

  pub some_player :
      length order ≡ expected_players
      → IsDistinct order
      → (id : ℕ) × (first : Player) × (more : List (ℕ × Player)) × (joined_players names order []
          ≡ (id, first) ∷ more)
  some_player count distinct = elim (List-cases (joined_players names order [])) [
    | inl nobody ↦ absurd (omega (arith, length-order distinct, ap length nobody, count))
    | inr ((id, first), more, whole) ↦ (id, first, more, whole)
  ]

  -- What the choices make of the players who joined.
  pub lookup-chosen :
      (jobs : ℕ → ℕ) (k : ℕ)
      → StdMap.lookup k (assign jobs (none_ready (joined_players names order [])))
        ≡ (if has_key k order then some (with_class (jobs k) (new_player (names k))) else none)
  lookup-chosen jobs k =
      let M = joined_players names order [] in
      lookup-assign jobs k (none_ready M)
      ∙ ap (Option.map (with_class (jobs k))) (lookup-for_each k idle M)
      ∙ ap (λ o. Option.map (with_class (jobs k)) (Option.map idle o)) (lookup-order k)
      ∙ (elim (Bool-cases (has_key k order)) [
        | inl there ↦ rw there refl
        | inr missing ↦ rw missing refl
      ])
