-- ===== src/Pbft/Views.antt =====
-- What the main loop needs of the views and the timers between two events.
pub mod Frames
pub mod NewViewFrames
pub mod Changes
pub mod Steps
use distribute_pki.Base.{false, ◌⊎◌, ◌≤◌, ◌<◌, ◌≡◌, ◌∙◌, ◌≢◌, true, not, arith, nat_eq, string_eq}
use distribute_pki.Pbft.Library.{Library, Host}
use distribute_pki.Pbft.Node.{Node, Timer, Effect, unset, get_timer, is_primary}

pub record IsReady (lib : Library) (me : Host lib) (n : Node) : Type 0 where
  -- the timer that the loop selects on is there
  pub timer : get_timer lib me n ≢ unset
  -- a view change in progress leads upwards
  pub upward : (n.view_change.in_progress ≡ false) ⊎ (n.view_number < n.view_change.view_number)
  pub positive : 1 ≤ n.sequence_number

-- What a handler that is not about views leaves alone.
pub record Keeps (n n' : Node) : Type 0 where
  pub view : n'.view_number ≡ n.view_number
  pub change : n'.view_change ≡ n.view_change
  pub ticker : n'.heartbeat_ticker ≡ n.heartbeat_ticker
  pub timer : n'.timeout_timer ≡ unset → n.timeout_timer ≡ unset
  pub sequence : n.sequence_number ≤ n'.sequence_number

pub Keeps-refl : (n : Node) → Keeps n n
Keeps-refl n = ground arith

pub Keeps-trans : {n k m : Node} → Keeps n k → Keeps k m → Keeps n m
Keeps-trans p q = record {
  view = q.view ∙ p.view;
  change = q.change ∙ p.change;
  ticker = q.ticker ∙ p.ticker;
  timer = λ e. p.timer (q.timer e);
  sequence = omega (arith, p.sequence, q.sequence);
}

module _ (lib : Library) (me : Host lib) where
  pub is_primary-Keeps : {n n' : Node} → Keeps n n' → is_primary lib me n' ≡ is_primary lib me n
  unfolding is_primary
  is_primary-Keeps p = rw p.view

  pub Keeps-IsReady : {n n' : Node} → Keeps n n' → IsReady lib me n → IsReady lib me n'
  unfolding get_timer
  Keeps-IsReady p r = record {
    timer = λ e. ground (arith, r.timer, p.timer, p.ticker, is_primary-Keeps p);
    upward = ground (arith, p.view, p.change, r.upward);
    positive = omega (arith, p.sequence, r.positive);
  }
