-- ===== src/Discovery.antt =====
-- lifx/discovery.c: the interval between two discovery packets. `no_gateway` says that the list of
-- gateways is empty when the timer fires; event_add and the broadcast are taken to succeed, the
-- program exits otherwise.
pub mod Watchdog
use native.Mathlib.Nat.{pow-suc}
use lightsd.Common.{
  ℕ, zero, suc, ◌+◌, ◌*◌, ◌^◌, ◌≤◌, ◌≡◌, refl, ap, ◌∙◌, min, Bool, true, false, List, [], ◌∷◌, ◌++◌,
  if◌then◌else◌, arith,
}

abbrev pub active_discovery_interval_msecs : ℕ
active_discovery_interval_msecs = 2000

abbrev pub passive_discovery_interval_msecs : ℕ
passive_discovery_interval_msecs = 10000

-- lgtd_lifx_discovery_timeout_event_callback, as the timeout that it schedules.
unfoldable pub timeout_event : Bool → ℕ → ℕ
timeout_event no_gateway timeout =
    if no_gateway
    then active_discovery_interval_msecs
    else min (timeout * 2) passive_discovery_interval_msecs

-- The timeouts scheduled when the timer fires in turn.
pub timeout_events : List Bool → ℕ → ℕ
timeout_events [] timeout = timeout
timeout_events (no_gateway ∷ events) timeout =
    timeout_events events (timeout_event no_gateway timeout)

-- `n` events with a gateway.
abbrev pub quiet : ℕ → List Bool
quiet zero = []
quiet (suc n) = false ∷ quiet n

capped : (r b p : ℕ) → min (min r b * p) b ≡ min (r * p) b
capped r b zero = omega arith
capped r b (suc p) =
    let e : min r b * suc p ≡ min r b + min r b * p = omega arith in
    let f : r * suc p ≡ r + r * p = omega arith in omega (arith, e, f, capped r b p)

quiet_from :
    (n t : ℕ)
    → t ≤ passive_discovery_interval_msecs
    → timeout_events (quiet n) t ≡ min (t * 2 ^ n) passive_discovery_interval_msecs
unfolding timeout_events timeout_event
quiet_from zero t h = omega arith
quiet_from (suc n) t h =
    let e : t * 2 ^ suc n ≡ t * 2 * 2 ^ n = omega (arith, ap (λ (x : ℕ). t * x) (pow-suc 2 n)) in
    rw e (
      quiet_from n (min (t * 2) passive_discovery_interval_msecs) (omega arith)
      ∙ capped (t * 2) passive_discovery_interval_msecs (2 ^ n))

timeout_events-append :
    (xs ys : List Bool) (t : ℕ)
    → timeout_events (xs ++ ys) t ≡ timeout_events ys (timeout_events xs t)
unfolding timeout_events
timeout_events-append [] ys t = refl
timeout_events-append (x ∷ xs) ys t = timeout_events-append xs ys (timeout_event x t)

-- Whatever happened before, after a round that finds no gateway and then `n` rounds that find one the
-- timeout is two seconds doubled `n` times, and never more than ten.
pub timeout_events-backoff :
    (before : List Bool) (n t : ℕ)
    → timeout_events (before ++ (true ∷ quiet n)) t
      ≡ min (active_discovery_interval_msecs * 2 ^ n) passive_discovery_interval_msecs
unfolding timeout_events timeout_event
timeout_events-backoff before n t =
    timeout_events-append before (true ∷ quiet n) t
    ∙ quiet_from n active_discovery_interval_msecs (omega arith)
