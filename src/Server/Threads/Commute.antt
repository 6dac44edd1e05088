-- ===== src/Server/Threads/Commute.antt =====
-- RRPG Server/server.cpp: a packet and a line of input, in either order.
use mathlib.Core.Path.{subst}
use rrpg.Common.{
  ◌≤◌, ◌==◌, leb, if◌then◌else◌, Bool, true, false, List, [], ◌∷◌, ◌++◌, ◌≡◌, refl, ap, ◌∙◌, ◌⊎◌,
  inl, inr, Fault, fault, ok, ◌>>=◌, Chars, codes, take, length, arith, Ends,
}
use rrpg.RakNet.{RakNet, Packet, Effect, send, print, everyone}
use rrpg.Server.{Server, is_running}
use rrpg.Server.Broadcast.{text_bytes, server_prefix}
use rrpg.Server.Broadcast.Outcome.{said, broadcast_message_fits, length-take_le}
use rrpg.Server.Dispatch.{Event, receive, typed, handle, handle_packet, handle_input, run}
use rrpg.Server.Dispatch.Run.{run-handle, run_fault, run_receive, run_last}
use rrpg.Server.Frame.Facts.{run-is_running}
use rrpg.Server.Threads.{beside}
use rrpg.Server.Threads.Handlers.{handle_packet-Writes}

-- What `getline` reads, if the input is good.
abbrev read_line : Bool → Chars → Chars
read_line good line = if good then take 2047 line else []

-- What is printed and sent for an input.
abbrev spoken : Chars → List Effect
spoken input =
    if length input == 0
    then []
    else send (text_bytes (server_prefix ++ input)) everyone
      ∷ print (codes "Broadcast: " ++ (server_prefix ++ (input ++ codes "\n")))
      ∷ []

abbrev still_good : Bool → Chars → Bool
still_good good line = if leb (length line) 2047 then good else false

said-spoken : (input : Chars) (s : Server) → said input s ≡ record s { out = spoken input ++ s.out }
said-spoken input s = ground arith

length-read_line : (good : Bool) (line : Chars) → length (read_line good line) ≤ 2047
length-read_line true line = length-take_le 2047 line
length-read_line false line = omega arith

handle_input_lem :
    (line : Chars) (s : Server)
    → handle_input line s
      ≡ ok (
        tt,
        beside (spoken (read_line s.input_good line) ++ s.out) (still_good s.input_good line) s,
      )
unfolding handle_input ◌>>=◌
handle_input_lem line s =
    let input = read_line s.input_good line in
    let t : Server = record s { input_good = still_good s.input_good line } in
    broadcast_message_fits input t (length-read_line s.input_good line)
    ∙ ap (λ u. ok (tt, u)) (said-spoken input t)

-- The two orders of a packet and a line of input.
abbrev pub packet_first : Packet → Chars → List Event
packet_first p line = receive p ∷ typed line ∷ []

abbrev pub line_first : Packet → Chars → List Event
line_first p line = typed line ∷ receive p ∷ []

module _ (net : RakNet) where
  keeps_running :
      (p : Packet) (s t : Server)
      → is_running s ≡ true
      → handle_packet net p s ≡ ok (tt, t)
      → is_running t ≡ true
  keeps_running p s t running ended =
      subst (λ r. Ends r (λ _ u. is_running u ≡ is_running s)) (run_last net p s running ∙ ended)
        (run-is_running net (receive p ∷ []) s)
      ∙ running

  -- A line that is typed and a packet that arrives may be handled in either order: the same fault
  -- stops the server, or the state is the same in the end, and the same is sent and printed, what
  -- the packet causes before what the line causes, or behind it. The server is running.
  pub packet-line_commutes :
      (p : Packet) (line : Chars) (s : Server)
      → is_running s ≡ true
      → ((f : Fault) × (run net (packet_first p line) s ≡ fault f)
          × (run net (line_first p line) s ≡ fault f))
        ⊎ ((t : Server) × (answer heard : List Effect) × (run net (packet_first p line) s
              ≡ ok (tt, record t { out = heard ++ (answer ++ s.out) }))
            × (run net (line_first p line) s
                ≡ ok (tt, record t { out = answer ++ (heard ++ s.out) })))
  unfolding is_running handle
  packet-line_commutes p line s running =
      let good = s.input_good in
      let after = still_good good line in
      let heard = spoken (read_line good line) in
      let u : Server = beside (heard ++ s.out) after s in
      let line_done = run-handle net (typed line) (receive p ∷ []) s u running (typed_handled s) in
      elim ((handle_packet-Writes net p).at s) [
        | inl (f, fails) ↦ inl (
          f,
          run_fault net (receive p) (typed line ∷ []) s f running (fails s.out good),
          line_done ∙ run_last net p u running ∙ fails (heard ++ s.out) after,
        )
        | inr (a, t, answer, ends) ↦
            let v : Server = beside (answer ++ s.out) good t in
            let goes_on = keeps_running p s v running (ends s.out good) in
            inr (
              record t { input_good = after },
              answer,
              heard,
              run_receive net p (typed line ∷ []) s v running (ends s.out good)
                  ∙ run-handle net (typed line) [] v (beside (heard ++ (answer ++ s.out)) after t)
                      goes_on (typed_handled v)
                  ∙ run_nothing (beside (heard ++ (answer ++ s.out)) after t),
              line_done ∙ run_last net p u running ∙ ends (heard ++ s.out) after,
            )
      ]
    where
      typed_handled :
          (s : Server)
          → handle net (typed line) s
            ≡ ok (
              tt,
              beside
                  (spoken (read_line s.input_good line) ++ s.out)
                  (still_good s.input_good line)
                  s,
            )
      typed_handled s = unfold handle in handle_input_lem line s

      run_nothing : (s : Server) → run net [] s ≡ ok (tt, s)
      run_nothing s = unfold run in refl
