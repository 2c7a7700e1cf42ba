-- ===== src/Windows/Pipeline.antt =====
-- drivers/UsbDisplayIdd/Pipeline.cpp: a frame of the desktop is converted, cut into chunks, and each chunk
-- is sent to the transport driver, again if that fails.
pub mod Retry
use rpusbdisp.Common.{
  ℕ, zero, suc, ◌+◌, ◌-◌, ◌*◌, ◌/◌, ◌%◌, ◌^◌, bit_and, bit_or, Bool, true, false, ◌||◌, List, [],
  ◌∷◌, ◌++◌, ltb, ◌==◌, if◌then◌else◌,
}
use rpusbdisp.Common.Memory.{read}
use rpusbdisp.Protocol.{le16}
use rpusbdisp.Windows.Transport.{ChunkHeader, Chunk, Transport, push_frame_chunk}

abbrev pub max_retries : ℕ
max_retries = 3

abbrev pub initial_retry_delay_ms : ℕ
initial_retry_delay_ms = 100

abbrev pub max_retry_delay_ms : ℕ
max_retry_delay_ms = 2000

-- `g_context` with the transport driver behind its target; the delays so far, in milliseconds, and the
-- number of attempts.
pub record Pipeline : Type 0 where
  pub transport_target : Bool
  pub transport : Transport
  pub delays : List ℕ
  pub attempts : ℕ
  -- `g_frameCounter`
  pub frame_counter : ℕ

-- What an attempt meets: whether the target can be opened if it is not, whether the request reaches the
-- transport driver, and what that meets.
pub record Attempt : Type 0 where
  pub opens : Bool
  pub reaches : Bool
  pub retrieved : Bool
  pub written : Bool

-- `EnsureTransportTarget`
abbrev pub ensure_transport_target : Attempt → Pipeline → Pipeline
ensure_transport_target a p = record p { transport_target = p.transport_target || a.opens }

-- `WdfIoTargetSendIoctlSynchronously`, and what the transport driver does.
abbrev pub send_ioctl : Attempt → Chunk → Transport → Bool × Transport
send_ioctl a c t = if a.reaches then push_frame_chunk a.retrieved a.written c t else (false, t)

-- `min(retryDelay * 2, kMaxRetryDelayMs)`
abbrev pub next_delay : ℕ → ℕ
next_delay d = if ltb (d * 2) max_retry_delay_ms then d * 2 else max_retry_delay_ms

-- `KeDelayExecutionThread`, but not after the last round.
abbrev pub wait : ℕ → ℕ → Pipeline → Pipeline
wait left delay p = if left == 0 then p else record p { delays = p.delays ++ delay ∷ [] }

module _ (env : ℕ → Attempt) where
  -- One round of `SendIoctlWithRetry`, with the rounds left behind it: whether it has sent the chunk.
  unfoldable pub send_round : ℕ → ℕ → Chunk → Pipeline → Bool × Pipeline
  send_round left delay c p =
      let a = env p.attempts in
      let p' = ensure_transport_target a (record p { attempts = p.attempts + 1 }) in
      let r = send_ioctl a c p.transport in
      if p'.transport_target
      then if r.0
        then (true, record p' { transport = r.1 })
        else (false, wait left delay (record p' { transport_target = false; transport = r.1 }))
      else (false, wait left delay p')

  unfoldable pub send_rounds : ℕ → ℕ → Chunk → Pipeline → Bool × Pipeline
  send_rounds zero delay c p = (false, p)
  send_rounds (suc left) delay c p =
      let r = send_round left delay c p in
      let again = send_rounds left (next_delay delay) c r.1 in if r.0 then r else again

  -- `SendIoctlWithRetry`
  unfoldable pub send_ioctl_with_retry : Chunk → Pipeline → Bool × Pipeline
  send_ioctl_with_retry c p = send_rounds (max_retries + 1) initial_retry_delay_ms c p
