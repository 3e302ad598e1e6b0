-- ===== src/Shared/RequestStatus/Aging.antt =====
-- How the effective status of a request changes while the buyer does nothing.
use buyseekk.Prelude.{ℕ, ◌+◌, ◌*◌, ◌≤◌, ◌<◌, ◌≡◌, ◌↔◌, none, arith}
use buyseekk.Shared.RequestStatus.{
  StoredRequestStatus, EffectiveRequestStatus, RequestLifecycleInput, effective_request_status,
}
use buyseekk.Shared.Limits.{day_ms}

-- The stages in the order in which an idle request goes through them.
abbrev pub stage : EffectiveRequestStatus → ℕ
stage EffectiveRequestStatus.activa = 0
stage EffectiveRequestStatus.negociando = 0
stage EffectiveRequestStatus.pendiente_de_confirmacion = 1
stage EffectiveRequestStatus.inactiva = 2
stage EffectiveRequestStatus.archivada = 3
stage EffectiveRequestStatus.pausada = 4
stage EffectiveRequestStatus.cerrada = 5

-- While its row is unchanged, a request never goes back to an earlier stage as time passes.
pub effective_request_status_mono :
    (req : RequestLifecycleInput) (now later : ℕ)
    → now ≤ later
    → stage (effective_request_status req now) ≤ stage (effective_request_status req later)
unfolding effective_request_status
effective_request_status_mono req now later h = ground arith

-- An open, unpaused request awaits confirmation exactly from the end of its seventh idle day to the
-- end of the eighth, is inactive exactly from there to the end of the tenth, and is archived
-- exactly from then on.
pub effective_request_status-windows :
    (req : RequestLifecycleInput) (idle : ℕ)
    → ¬ (req.status ≡ StoredRequestStatus.cerrada)
    → req.paused_at ≡ none
    → let status = effective_request_status req (req.last_buyer_activity_at + idle) in
      ((status ≡ EffectiveRequestStatus.pendiente_de_confirmacion)
        ↔ ((7 * day_ms ≤ idle) × (idle < 8 * day_ms)))
      × ((status ≡ EffectiveRequestStatus.inactiva) ↔ ((8 * day_ms ≤ idle) × (idle < 10 * day_ms)))
      × ((status ≡ EffectiveRequestStatus.archivada) ↔ (10 * day_ms ≤ idle))
unfolding effective_request_status
effective_request_status-windows req idle h p = ground arith
