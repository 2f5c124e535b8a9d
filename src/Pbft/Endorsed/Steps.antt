-- ===== src/Pbft/Endorsed/Steps.antt =====
-- Every event of the main loop keeps every digest of the log sourced.
use distribute_pki.Base.{refl, inl, List, [], ◌∷◌, nat_eq, string_eq, All, Holds, Map}
use distribute_pki.Pbft.SlotId.{SlotId}
use distribute_pki.Pbft.Messages.{FullPrePrepare}
use distribute_pki.Pbft.Library.{Library, Host}
use distribute_pki.Pbft.Node.{init}
use distribute_pki.Pbft.MainLoop.{
  Event, pre_prepared, new_viewed, debugged, view_changed, requested, prepared, committed,
  checkpoint_proved, snapshot_received, request_timed_out, timer_expired, new_view_acked,
  heartbeat_acked, run,
}
use distribute_pki.Pbft.MainLoop
use distribute_pki.Pbft.Digests.{IsDigestKept, IsAttested, run-init-Backed}
use distribute_pki.Pbft.Endorsed.{IsBacked, IsSourced}
use distribute_pki.Pbft.Endorsed.Handlers.{endorsed_by_leader, endorsed_by_sender}

abbrev Anything : FullPrePrepare → Type 0
Anything full = Unit

every_value : (m : Map SlotId FullPrePrepare) → All (λ e. Anything e.1) m
every_value [] = tt
every_value (e ∷ m) = (tt, every_value m)

event_allowed : (event : Event) → IsAttested Anything event
event_allowed (pre_prepared m) = tt
event_allowed (new_viewed m) = every_value m.message.preprepares
event_allowed (debugged m) = tt
event_allowed (view_changed m) = tt
event_allowed (requested r) = tt
event_allowed (prepared m) = tt
event_allowed (committed m) = tt
event_allowed (MainLoop.Event.checkpointed m) = tt
event_allowed (checkpoint_proved m) = tt
event_allowed (snapshot_received number state) = tt
event_allowed request_timed_out = tt
event_allowed timer_expired = tt
event_allowed (new_view_acked id) = tt
event_allowed (heartbeat_acked id r) = tt

events_allowed : (events : List Event) → All (IsAttested Anything) events
events_allowed [] = tt
events_allowed (event ∷ events) = (event_allowed event, events_allowed events)

module _ (lib : Library) (me : Host lib) where
  endorsed_rules : IsDigestKept lib me (IsBacked lib me) Anything
  endorsed_rules = record {
    absent = λ id. inl refl;
    led = λ id digest l e. endorsed_by_leader lib me id digest l e;
    came = λ full n u p v w e. endorsed_by_sender lib me full n p v w e;
  }

  -- From the state that `StartNode` builds, whatever events come in whatever order, every digest in
  -- the log is zero or that of a pre-prepare for its slot by the leader of the slot's view: the node
  -- checked its signature against that leader, or is the leader and signed it.
  pub run-init-IsSourced :
      (events : List Event) → Holds (λ k. IsSourced lib me k.log) (run lib me events (init lib me))
  run-init-IsSourced events =
      run-init-Backed lib me (IsBacked lib me) Anything endorsed_rules events
        (events_allowed events)
