-- ===== src/Session/Pace/AtMost.antt =====
-- RRPG/RRPG.cpp: a client acts at most as often as it is asked.
use mathlib.Core.Path.{subst}
use rrpg.Common.{
  ℕ, ◌+◌, ◌≤◌, ◌==◌, ==_iff, Bool, true, false, List, [], ◌∷◌, sym, inl, inr, M, ◌>>=◌, pure,
  if◌then◌else◌, arith, Keeps, Keeps-bind, Ends, Bool-cases, Result, ok, fault,
}
use rrpg.RakNet.{RakNet, RakNetLaws, Packet}
use rrpg.Protocol.{s_take_turn, get_packet_identifier}
use rrpg.Client.{Client}
use rrpg.Client.Packets.{on_take_turn}
use rrpg.Client.Dispatch.{
  lift, is_low_level_packet_handled, server_packet, handle_packet, Event, receive, typed, tick,
  handle,
}
use rrpg.Session.Pace.{
  turns_sent, spent, one_if, IsWithin, is_asking, asks_of, turns_given, client_run,
}
use rrpg.Session.Pace.Typed.{prints-IsWithin, line-IsWithin}
use rrpg.Session.Pace.Received.{lift-IsWithin}
use rrpg.Session.Pace.Run.{other-IsWithin, low_level-IsWithin, loop-IsWithin}

Ends-then :
    {S A B : Type 0} (P : A → S → Type 0) (Q : B → S → Type 0) (r : Result (A × S)) (f : A → M S B)
    → Ends r P
    → ((a : A) (s : S) → P a s → Ends (f a s) Q)
    → Ends (elim r [ fault e ↦ fault e | ok (a, s') ↦ f a s' ]) Q
Ends-then P Q (ok (a, s)) f h k = k a s h
Ends-then P Q (fault e) f h k = tt

module _ (net : RakNet) (laws : RakNetLaws net) where
  -- `OnTakeTurn` gives one turn.
  asked-IsWithin :
      (n : ℕ) (s : Client) → IsWithin n s → Ends (on_take_turn s) (λ _. IsWithin (n + 1))
  unfolding on_take_turn ◌>>=◌
  asked-IsWithin n s h =
      (prints-IsWithin (n + 1)).at (record s { my_turn = true }) (omega (arith, h))

  server-IsWithin :
      (n id : ℕ) (p : Packet) (s : Client)
      → IsWithin n s
      → Ends (server_packet net id p s) (λ _. IsWithin (n + one_if (id == s_take_turn)))
  unfolding server_packet
  server-IsWithin n id p s h = elim (Bool-cases (id == s_take_turn)) [
    | inl asks ↦
        subst (λ i. Ends (server_packet net i p s) (λ _. IsWithin (n + one_if (i == s_take_turn))))
          (sym ((==_iff id s_take_turn).0 asks)) (asked-IsWithin n s h)
    | inr away ↦
        (other-IsWithin (n + one_if (id == s_take_turn)) net laws id p away).at s (omega (arith, h))
  ]

  low-IsWithin : (n : ℕ) (p : Packet) → Keeps (IsWithin n) (is_low_level_packet_handled net p)
  unfolding is_low_level_packet_handled
  low-IsWithin n p = Keeps-bind _ _ (lift-IsWithin n _) λ id. low_level-IsWithin n net laws id p

  identified-IsWithin :
      (n : ℕ) (r : Result ℕ) (p : Packet) (s : Client)
      → IsWithin n s
      → Ends ((lift r >>= λ id. server_packet net id p) s) (λ _. IsWithin (n + is_asking r))
  unfolding lift ◌>>=◌
  identified-IsWithin n (fault f) p s h = tt
  identified-IsWithin n (ok id) p s h = server-IsWithin n id p s h

  rest-IsWithin :
      (n : ℕ) (handled : Bool) (p : Packet) (s : Client)
      → IsWithin n s
      → Ends
          ((if handled
              then pure tt
              else (do id ← lift (get_packet_identifier p); server_packet net id p))
            s)
          (λ _. IsWithin (n + is_asking (get_packet_identifier p)))
  unfolding pure
  rest-IsWithin n true p s h = omega (arith, h)
  rest-IsWithin n false p s h = identified-IsWithin n (get_packet_identifier p) p s h

  event-IsWithin :
      (fuel n : ℕ) (e : Event) (s : Client)
      → IsWithin n s
      → Ends (handle net fuel e s) (λ _. IsWithin (n + asks_of e))
  unfolding handle handle_packet ◌>>=◌
  event-IsWithin fuel n (receive p) s h =
      Ends-then (λ _. IsWithin n) _ (is_low_level_packet_handled net p s) _
        ((low-IsWithin n p).at s h) λ handled t k. rest-IsWithin n handled p t k
  event-IsWithin fuel n (typed line) s h =
      (line-IsWithin (n + 0) net laws line).at s (omega (arith, h))
  event-IsWithin fuel n tick s h = (loop-IsWithin (n + 0) net laws fuel).at s (omega (arith, h))

  client_run-IsWithin :
      (fuel n : ℕ) (es : List Event) (s : Client)
      → IsWithin n s
      → Ends (client_run net fuel es s) (λ _. IsWithin (n + turns_given es))
  unfolding client_run
  client_run-IsWithin fuel n [] s h = omega (arith, h)
  client_run-IsWithin fuel n (e ∷ es) s h =
      Ends-then (λ _. IsWithin (n + asks_of e)) _ (handle net fuel e s)
        (λ _. client_run net fuel es) (event-IsWithin fuel n e s h)
        λ _ t k.
          subst (λ m. Ends (client_run net fuel es t) (λ _. IsWithin m)) (omega arith)
            (client_run-IsWithin fuel (n + asks_of e) es t k)

  -- A client acts at most once each time that it is asked, whatever arrives, whatever is typed and
  -- in whatever order: the choices of a class and the actions that it sends, and the one that it
  -- may still send, are no more than the packets with `S_TAKE_TURN` that it gets, beside the turn
  -- that it may have had and what it sent before. A packet is of that kind if it has that
  -- identifier, of any contents; what is sent is told by its first byte.
  pub client_run-spends :
      (fuel : ℕ) (es : List Event) (c : Client)
      → Ends (client_run net fuel es c) (λ _ c'.
        turns_sent c'.out + one_if c'.my_turn
        ≤ turns_sent c.out + one_if c.my_turn + turns_given es)
  client_run-spends fuel es c = client_run-IsWithin fuel (spent c) es c (omega arith)
