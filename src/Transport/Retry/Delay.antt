-- ===== src/Transport/Retry/Delay.antt =====
-- When a failed request may go out again, and how long it waits.
use mathlib.Core.Bool.{false≢true}
use mcpdial.Base.{
  ℕ, ◌≤◌, Bool, true, false, ◌≡◌, ◌≢◌, ◌↔◌, ◌⊎◌, inl, inr, refl, none, some, arith, Bool-cases, sym,
  ◌∙◌,
}
use mcpdial.Transport.Retry.{
  Failure, unreached, status, interrupted, final, Retry, worth_retrying, delay,
}

-- A failure that proves the server never processed the request, or after which a second delivery
-- is harmless: no byte came back; a 429; a gateway's 502, 503 or 504 for a request that is
-- idempotent or that has no session to lose; a broken-off reply to an idempotent request.
abbrev pub IsSafe : Bool → Bool → Failure → Type 0
IsSafe idempotent session_started (unreached reason) = Unit
IsSafe idempotent session_started (status code wait) =
    (code ≡ 429) ⊎ ((502 ≤ code) × (code ≤ 504) × ((idempotent ≡ true) ⊎ (session_started ≡ false)))
IsSafe idempotent session_started interrupted = idempotent ≡ true
IsSafe idempotent session_started final = ⊥

worth_retrying_iff : (i s : Bool) (f : Failure) → (worth_retrying i s f ≡ true) ↔ IsSafe i s f
unfolding worth_retrying
worth_retrying_iff i s (unreached reason) = (λ e. tt, λ e. refl)
worth_retrying_iff i s (status code wait) = ground arith
worth_retrying_iff i s interrupted = (λ e. e, λ e. e)
worth_retrying_iff i s final = (λ e. cc, λ e. absurd e)

-- A second attempt is allowed exactly when retrying is on and the failure is a safe one.
pub delay-ne-none_iff :
    (r : Retry) (i s : Bool) (f : Failure)
    → (delay r i s f ≢ none) ↔ ((r.enabled ≡ true) × IsSafe i s f)
unfolding delay
delay-ne-none_iff r i s f = elim (Bool-cases (worth_retrying i s f)) [
  | inl w ↦ (λ h. (ground arith, (worth_retrying_iff i s f).0 w), λ h. ground arith)
  | inr w ↦ (
    λ h. absurd (h (ground arith)),
    λ h. absurd (false≢true (sym w ∙ (worth_retrying_iff i s f).1 h.1)),
  )
]

-- A wait of `d` for a failure: the one the server asked for, cut at the timeout, and half a second
-- where the server named none.
abbrev pub Waits : Retry → Failure → ℕ → Type 0
Waits r (status code (some wait)) d = (d ≤ wait) × (d ≤ r.timeout) × ((d ≡ wait) ⊎ (d ≡ r.timeout))
Waits r _ d = d ≡ 500

-- Whatever delay is chosen, it is the wait that the server asked for or the timeout, whichever is
-- shorter, and half a second where the server asked for none.
pub delay-Waits :
    (r : Retry) (i s : Bool) (f : Failure) (d : ℕ) → delay r i s f ≡ some d → Waits r f d
unfolding delay
delay-Waits r i s (unreached reason) d e = ground arith
delay-Waits r i s (status code none) d e = ground arith
delay-Waits r i s (status code (some wait)) d e = ground arith
delay-Waits r i s interrupted d e = ground arith
delay-Waits r i s final d e = ground arith
