-- ===== src/Pbft/Invariants.antt =====
-- What every event of a kind keeps, a run with events of that kind keeps.
use distribute_pki.Base.{List, [], ◌∷◌, arith, nat_eq, string_eq, All, Holds, and_then-Holds}
use distribute_pki.Pbft.Library.{Library, Host}
use distribute_pki.Pbft.Node.{Node}
use distribute_pki.Pbft.MainLoop.{Event, handle_event, step, run}

pub every_event : (events : List Event) → All {A = Event} (λ _. Unit {0}) events
every_event [] = tt
every_event (event ∷ events) = (tt, every_event events)

module _ {ℓ} (lib : Library) (me : Host lib) (P : Node → Type ℓ) (Allowed : Event → Type 0)
    (keep : (event : Event) (n : Node)
      → Allowed event
      → P n
      → Holds P (handle_event lib me event n)) where
  pub step-Holds : (event : Event) (n : Node) → Allowed event → P n → Holds P (step lib me event n)
  unfolding step
  step-Holds event n u h = ground (arith, keep event n u h)

  pub run-Holds :
      (events : List Event) (n : Node) → All Allowed events → P n → Holds P (run lib me events n)
  unfolding run
  run-Holds [] n u h = h
  run-Holds (event ∷ events) n (u, us) h =
      and_then-Holds P P (step lib me event n) _ (step-Holds event n u h)
        (λ k p. run-Holds events k us p)
