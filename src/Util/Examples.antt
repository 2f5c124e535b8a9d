-- ===== src/Util/Examples.antt =====
-- A call whose first dial is refused and whose second would succeed.
use distribute_pki.Base.{ℕ, zero, suc, ◌≡◌, some, none, Result, ok, err}
use distribute_pki.Util.{Reply, redial, send_rpc, send_rpc_once}

abbrev refused_once : ℕ → Result ℕ
refused_once zero = err "connection refused"
refused_once (suc n) = ok n

abbrev answered : ℕ → Reply
answered n = some (ok tt)

send_rpc_once_example :
    (redial refused_once 1 10 0 (refused_once 0) ≡ some (refused_once 0, 0))
    × (send_rpc refused_once 1 10 answered
        ≡ some (elim (refused_once 0) [
          | err e ↦ err e
          | ok client ↦ elim (answered client) [ none ↦ err "timed out" | some reply ↦ reply ]
        ]))
send_rpc_once_example = send_rpc_once refused_once 0 10 answered
