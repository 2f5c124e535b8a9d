-- ===== src/Util.antt =====
-- src/distributepki/util/shared.go: `SendRpc`. The k-th dial's outcome and the outcome of the remote
-- call are arguments; retries are not negative, as at every call in the source.
mod Examples
pub mod Hostname
use distribute_pki.Base.{
  ℕ, zero, suc, ◌+◌, String, ◌≡◌, true, false, not, Option, none, some, arith, ltb, ◌==◌,
  if◌then◌else◌, nat_eq, string_eq, Result, ok, err, and_then,
}

-- A call that is not answered in time is `none`.
abbrev pub Reply : Type 0
Reply = Option (Result (Unit {0}))

-- if timeout <= 0 { timeout = time.Second }, in nanoseconds
unfoldable pub rpc_timeout : ℕ → ℕ
rpc_timeout timeout = if timeout == 0 then 1000000000 else timeout

module _ {C : Type 0} (dial : ℕ → Result C) where
  -- The retry loop, after dial number `n_retries`: the last outcome and the number of the last dial.
  -- `none` means that the fuel ran out.
  unfoldable pub redial : ℕ → ℕ → ℕ → Result C → Option (Result C × ℕ)
  redial zero rpc_retries n_retries outcome = none
  redial (suc fuel) rpc_retries n_retries outcome = elim outcome [
    | ok client ↦ some (ok client, n_retries)
    | err e ↦ elim (ltb rpc_retries n_retries) [
      | true ↦ redial fuel rpc_retries (n_retries + 1) (dial (n_retries + 1))
      | false ↦ some (err e, n_retries)
    ]
  ]

  unfoldable pub send_rpc : ℕ → ℕ → (C → Reply) → Option (Result (Unit {0}))
  send_rpc fuel rpc_retries call = and_then (redial fuel rpc_retries 0 (dial 0)) λ r. elim r.0 [
    | err e ↦ some (err e)
    | ok client ↦ elim (call client) [ none ↦ some (err "timed out") | some reply ↦ some reply ]
  ]

  -- One round of fuel is enough, and whatever number of retries is asked for, `SendRpc` dials once:
  -- its error is that of the first dial, and otherwise its result is that of the call, or an error
  -- where the call is not answered in time.
  pub send_rpc_once :
      (fuel rpc_retries : ℕ) (call : C → Reply)
      → (redial (suc fuel) rpc_retries 0 (dial 0) ≡ some (dial 0, 0))
        × (send_rpc (suc fuel) rpc_retries call
            ≡ some (elim (dial 0) [
              | err e ↦ err e
              | ok client ↦ elim (call client) [ none ↦ err "timed out" | some reply ↦ reply ]
            ]))
  unfolding redial send_rpc
  send_rpc_once fuel rpc_retries call = (ground arith, ground arith)
