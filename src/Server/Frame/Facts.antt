-- ===== src/Server/Frame/Facts.antt =====
-- RRPG Server/server.cpp: registered clients, dead players and `isQuitting` along a run.
use rrpg.Common.{
  ℕ, ◌==◌, Bool, true, List, some, ◌≡◌, refl, ◌∙◌, ◌⊎◌, inl, inr, Ends, Bool-cases, ==_iff, arith,
  Chars,
}
use rrpg.RakNet.{RakNet}
use rrpg.Protocol.{Player}
use rrpg.StdMap
use rrpg.StdMap.Order.{
  IsSorted, lookup-adjust, lookup-for_each, lookup-emplace, emplace-IsSorted, adjust-IsSorted,
  for_each-IsSorted,
}
use rrpg.Server.{Server, is_running}
use rrpg.Server.Dispatch.{Event, run}
use rrpg.Server.Frame.{IsFrame, IsTame}
use rrpg.Server.Frame.Handlers.{run-frame}

-- The key has a player of that name, who is dead if the flag says so.
abbrev pub IsPlayer : ℕ → Chars → Bool → List (ℕ × Player) → Type 0
IsPlayer id name dead players =
    (player : Player) × (StdMap.lookup id players ≡ some player)
    × (player.name ≡ name)
    × (dead ≡ true → player.dead ≡ true)

module _ (id : ℕ) (name : Chars) (dead : Bool) where
  IsPlayer-tame :
      (f : Player → Player) (players after : List (ℕ × Player))
      → IsTame f
      → ((player : Player)
          → StdMap.lookup id players ≡ some player
          → (StdMap.lookup id after ≡ some player) ⊎ (StdMap.lookup id after ≡ some (f player)))
      → IsPlayer id name dead players
      → IsPlayer id name dead after
  IsPlayer-tame f players after tame moved (player, found, named, died) =
      elim (moved player found) [
        | inl kept ↦ (player, kept, named, died)
        | inr written ↦
            (f player, written, (tame player).0 ∙ named, λ is_dead. (tame player).1 (died is_dead))
      ]

  IsPlayer-adjust :
      (k : ℕ) (f : Player → Player) (players : List (ℕ × Player))
      → IsTame f
      → IsPlayer id name dead players
      → IsPlayer id name dead (StdMap.adjust k f players)
  IsPlayer-adjust k f players tame =
      IsPlayer-tame f players (StdMap.adjust k f players) tame λ player found.
        elim (Bool-cases (k == id)) [
          | inl hit ↦ inr (ground (arith, lookup-adjust id k f players, ==_iff k id))
          | inr miss ↦ inl (ground (arith, lookup-adjust id k f players))
        ]

  IsPlayer-for_each :
      (f : Player → Player) (players : List (ℕ × Player))
      → IsTame f
      → IsPlayer id name dead players
      → IsPlayer id name dead (StdMap.for_each f players)
  IsPlayer-for_each f players tame =
      IsPlayer-tame f players (StdMap.for_each f players) tame
        λ player found. inr (ground (arith, lookup-for_each id f players))

  IsPlayer-emplace :
      (k : ℕ) (new : Player) (players : List (ℕ × Player))
      → IsSorted players
      → IsPlayer id name dead players
      → IsPlayer id name dead (StdMap.emplace k new players)
  IsPlayer-emplace k new players sorted =
      IsPlayer-tame (λ player. player) players (StdMap.emplace k new players)
        (λ player. (refl, λ is_dead. is_dead))
        λ player found. inl (elim (Bool-cases (k == id)) [
          | inl hit ↦ ground (arith, lookup-emplace id k new players sorted, ==_iff k id)
          | inr miss ↦ ground (arith, lookup-emplace id k new players sorted)
        ])

  IsPlayer-frame : IsFrame (λ s. IsSorted s.players × IsPlayer id name dead s.players)
  IsPlayer-frame = record {
    out_lem = λ s out h. h;
    random_lem = λ s random h. h;
    input_lem = λ s good h. h;
    count_lem = λ s n h. h;
    address_lem = λ s m h. h;
    turn_lem = λ s turn h. h;
    main_lem = λ s h. h;
    over_lem = λ s h. h;
    start_lem = λ s h. h;
    lobby_lem = λ s here h. h;
    emplace_lem = λ s k player h.
        (emplace-IsSorted k player s.players h.0, IsPlayer-emplace k player s.players h.0 h.1);
    adjust_lem =
        λ s k f tame h. (adjust-IsSorted k f s.players h.0, IsPlayer-adjust k f s.players tame h.1);
    each_lem =
        λ s f tame h. (for_each-IsSorted f s.players h.0, IsPlayer-for_each f s.players tame h.1);
  }

  -- Whatever arrives and is typed, in any order and number, as long as no fault stops the server:
  -- a client of the map keeps its entry and its name, and a player who is dead stays dead. No
  -- healing, no second introduction and no new game changes that. The map's keys ascend, and still
  -- do.
  pub run-IsPlayer :
      (net : RakNet) (es : List Event) (s : Server)
      → IsSorted s.players
      → IsPlayer id name dead s.players
      → Ends (run net es s) (λ _ s'. IsSorted s'.players × IsPlayer id name dead s'.players)
  run-IsPlayer net es s sorted there = (run-frame IsPlayer-frame net es).at s (sorted, there)

IsRunning-frame : (b : Bool) → IsFrame (λ s. is_running s ≡ b)
unfolding is_running
IsRunning-frame b = record {
  out_lem = λ s out h. h;
  random_lem = λ s random h. h;
  input_lem = λ s good h. h;
  count_lem = λ s n h. h;
  address_lem = λ s m h. h;
  turn_lem = λ s id h. h;
  main_lem = λ s h. h;
  over_lem = λ s h. h;
  start_lem = λ s h. h;
  lobby_lem = λ s here h. h;
  emplace_lem = λ s id player h. h;
  adjust_lem = λ s id f tame h. h;
  each_lem = λ s f tame h. h;
}

-- No packet, no round of the main loop and no line of input, ".quit" included, changes what
-- `IsRunning` returns, as long as no fault stops the server.
pub run-is_running :
    (net : RakNet) (es : List Event) (s : Server)
    → Ends (run net es s) (λ _ s'. is_running s' ≡ is_running s)
run-is_running net es s = (run-frame (IsRunning-frame (is_running s)) net es).at s refl
