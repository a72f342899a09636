-- ===== src/Outbox/Relay/Retry.antt =====
-- The delay before a retry.
use lens_chat_service.Prelude.{ℕ, zero, suc, ◌*◌, ◌^◌, ◌≤◌, ◌≡◌, refl, arith, if◌then◌else◌, leb}
use lens_chat_service.Outbox.Relay.{second, five_minutes, delay_from, retry_delay}

-- A delay that has reached the limit is not doubled again.
delay_from_stops : (n d : ℕ) → five_minutes ≤ d → delay_from n d ≡ d
unfolding delay_from
delay_from_stops zero d h = refl
delay_from_stops (suc n) d h = ground arith

-- The delay after attempt `n + 1` is `2 ^ n` seconds for `n` up to 8, and five minutes from then on.
pub retry_delay_lem :
    (n : ℕ) → retry_delay (suc n) ≡ (if leb n 8 then 2 ^ n * second else five_minutes)
unfolding retry_delay
retry_delay_lem zero = refl
retry_delay_lem (suc zero) = refl
retry_delay_lem (suc (suc zero)) = refl
retry_delay_lem (suc (suc (suc zero))) = refl
retry_delay_lem (suc (suc (suc (suc zero)))) = refl
retry_delay_lem (suc (suc (suc (suc (suc zero))))) = refl
retry_delay_lem (suc (suc (suc (suc (suc (suc zero)))))) = refl
retry_delay_lem (suc (suc (suc (suc (suc (suc (suc zero))))))) = refl
retry_delay_lem (suc (suc (suc (suc (suc (suc (suc (suc zero)))))))) = refl
retry_delay_lem (suc (suc (suc (suc (suc (suc (suc (suc (suc n))))))))) =
    ground (arith, delay_from_stops n (512 * second))
