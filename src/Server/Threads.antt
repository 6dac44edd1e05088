-- ===== src/Server/Threads.antt =====
-- RRPG Server/server.cpp: what the packet thread does, whatever the input thread has written.
-- The threads share what was sent and printed, and `std::cin`, which only the input thread reads.
pub mod Handlers
pub mod Commute
use mathlib.Core.List.{append_assoc}
use rrpg.Common.{
  ℕ, ◌+◌, ◌%◌, ◌==◌, if◌then◌else◌, Bool, true, false, List, [], ◌∷◌, ◌++◌, Option, none, some, ◌≡◌,
  refl, sym, ap, ◌∙◌, ◌⊎◌, inl, inr, M, Result, ok, fault, Fault, ◌>>=◌, pure, raise, get, modify,
  guard, assertion, Chars, ℤ, arith, Option-cases,
}
use rrpg.RakNet.{RakNet, Effect}
use rrpg.Protocol.{Player}
use rrpg.StdMap
use rrpg.Server.{Server, emit, get_player, get_address_from_id, get_random_integer}
use rrpg.Server.Broadcast.{broadcast_message}
use rrpg.Server.Turn.{lift}
use rrpg.Server.Game.{first_key}
use rrpg.Server.Actions.{or_assert, successor}
use rrpg.Server.Dispatch.{print_data}

-- The state with another output and another state of the input.
abbrev pub beside : List Effect → Bool → Server → Server
beside out good s = record s { out = out; input_good = good }

-- From every output, and whether the input is good or not, the same fault, or the same result with
-- the same effects in front.
abbrev pub IsUniform : {A : Type 0} → (List Effect → Bool → Result (A × Server)) → Type 0
IsUniform {A} r =
    ((e : Fault) × ((out : List Effect) (good : Bool) → r out good ≡ fault e))
    ⊎ ((a : A) × (t : Server) × (new : List Effect) × ((out : List Effect) (good : Bool)
          → r out good ≡ ok (a, beside (new ++ out) good t)))

pub record Writes {A : Type 0} (m : M Server A) : Type 0 where
  pub at : (s : Server) → IsUniform (λ out good. m (beside out good s))

module _ {A : Type 0} where
  pub Writes-pure : (a : A) → Writes (pure a)
  unfolding pure
  Writes-pure a = record { at = λ s. inr (a, s, [], λ out good. refl) }

  pub Writes-raise : (e : Fault) → Writes (raise {A = A} e)
  unfolding raise
  Writes-raise e = record { at = λ s. inl (e, λ out good. refl) }

  pub Writes-if : (b : Bool) (m n : M Server A) → Writes m → Writes n → Writes (if b then m else n)
  Writes-if true m n wm wn = wm
  Writes-if false m n wm wn = wn

pub Writes-guard : (b : Bool) (e : Fault) → Writes (guard b e)
unfolding guard
Writes-guard true e = record { at = λ s. inr (tt, s, [], λ out good. refl) }
Writes-guard false e = record { at = λ s. inl (e, λ out good. refl) }

-- A write to another part of the state.
pub Writes-modify :
    (f : Server → Server)
    → ((s : Server) (out : List Effect) (good : Bool)
        → f (beside out good s) ≡ beside out good (f s))
    → Writes (modify f)
unfolding modify
Writes-modify f h = record {
  at = λ s. inr (tt, f s, [], λ out good. ap (λ t. ok (tt, t)) (h s out good));
}

module _ {B : Type 0} where
  -- A look at the state that does not see the output or the input.
  pub Writes-get :
      (k : Server → M Server B)
      → ((s : Server) (out : List Effect) (good : Bool) → k (beside out good s) ≡ k s)
      → ((s : Server) → Writes (k s))
      → Writes (get >>= k)
  unfolding ◌>>=◌
  Writes-get k blind w = record {
    at = λ s. elim ((w s).at s) [
      | inl (e, h) ↦
          inl (e, λ out good. ap (λ m. m (beside out good s)) (blind s out good) ∙ h out good)
      | inr (a, t, new, h) ↦
          inr
            (a, t, new, λ out good. ap (λ m. m (beside out good s)) (blind s out good) ∙ h out good)
    ];
  }

module _ {A B : Type 0} where
  abbrev go_on : (A → M Server B) → Result (A × Server) → Result (B × Server)
  go_on k (fault e) = fault e
  go_on k (ok (a, s)) = k a s

  pub Writes-bind :
      (m : M Server A) (k : A → M Server B) → Writes m → ((a : A) → Writes (k a)) → Writes (m >>= k)
  unfolding ◌>>=◌
  Writes-bind m k wm wk = record {
    at = λ s. elim (wm.at s) [
      | inl (e, h) ↦ inl (e, λ out good. ap (go_on k) (h out good))
      | inr (a, t, new, h) ↦ elim ((wk a).at t) [
        | inl (e, h') ↦ inl (e, λ out good. ap (go_on k) (h out good) ∙ h' (new ++ out) good)
        | inr (b, u, more, h') ↦ inr (
          b,
          u,
          more ++ new,
          λ out good.
              ap (go_on k) (h out good)
              ∙ h' (new ++ out) good
              ∙ ap (λ o. ok (b, beside o good u)) (sym (append_assoc more new out)),
        )
      ]
    ];
  }

pub ruleset writes_rules =
    (Writes-pure, Writes-raise, Writes-if, Writes-guard, Writes-get, Writes-bind, refl)

pub emit-Writes : (e : Effect) → Writes (emit e)
unfolding emit
emit-Writes e = record { at = λ s. inr (tt, s, e ∷ [], λ out good. refl) }

pub get_player-Writes : (id : ℕ) → Writes (get_player id)
unfolding get_player
get_player-Writes id = record {
  at = λ s. elim (Option-cases (StdMap.lookup id s.players)) [
    | inl missing ↦ inl (assertion, λ out good. rw (missing, get_player) refl)
    | inr (player, found) ↦ inr (player, s, [], λ out good. rw (found, get_player) refl)
  ];
}

pub get_address-Writes : (id : ℕ) → Writes (get_address_from_id id)
unfolding get_address_from_id
get_address-Writes id = record {
  at = λ s. elim (Option-cases (StdMap.lookup id s.player_addresses)) [
    | inl missing ↦ inl (assertion, λ out good. rw (missing, get_address_from_id) refl)
    | inr (address, found) ↦ inr (address, s, [], λ out good. rw (found, get_address_from_id) refl)
  ];
}

pub get_random-Writes : (low high : ℕ) → Writes (get_random_integer low high)
unfolding get_random_integer
get_random-Writes low high = record {
  at = λ s. inr (_, record s { random = λ n. s.random (n + 1) }, [], λ out good. refl);
}

pub lift-Writes : {A : Type 0} (r : Result A) → Writes (lift r)
unfolding lift
lift-Writes (ok a) = record { at = λ s. inr (a, s, [], λ out good. refl) }
lift-Writes (fault e) = record { at = λ s. inl (e, λ out good. refl) }

pub first_key-Writes : (players : List (ℕ × Player)) → Writes (first_key players)
first_key-Writes [] = search writes_rules
first_key-Writes ((id, player) ∷ rest) = search writes_rules

pub successor-Writes : (it : List (ℕ × Player)) → Writes (successor it)
successor-Writes [] = search writes_rules
successor-Writes (x ∷ rest) = search writes_rules

pub or_assert-Writes : (o : Option ℕ) → Writes (or_assert o)
or_assert-Writes none = search writes_rules
or_assert-Writes (some id) = search writes_rules

pub print_data-Writes : (o : Option Chars) → Writes (print_data o)
print_data-Writes none = search writes_rules
print_data-Writes (some text) = search (writes_rules, emit-Writes)

pub broadcast-Writes : (input : Chars) → Writes (broadcast_message input)
unfolding broadcast_message
broadcast-Writes input = search (writes_rules, emit-Writes)
