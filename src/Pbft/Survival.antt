-- ===== src/Pbft/Survival.antt =====
-- A node goes on, whatever comes.
use distribute_pki.Base.{nat_eq, string_eq}
use distribute_pki.Pbft.Library.{Library, Host}
use distribute_pki.Pbft.Node.{Node}
use distribute_pki.Pbft.Views.{IsReady}
use distribute_pki.Pbft.Slots.{IsLog}

module _ (lib : Library) (me : Host lib) where
  -- What a round of the main loop needs.
  record IsSound (n : Node) : Type 0 where
    ready : IsReady lib me n
    log : IsLog lib me n.log
