-- ===== src/Admission/Guard.antt =====
-- The retry guard: when failures open it, and what it does while it is open.
use vllm_source_gateway.Base.{
  ℕ, String, ◌≡◌, refl, ap, ◌∙◌, ◌≤◌, ◌<◌, ◌+◌, ◌-◌, ◌*◌, ◌/◌, ◌%◌, List, [], ◌∷◌, true, not, ◌&&◌,
  ◌||◌, some, leb, ltb, arith, if◌then◌else◌, if_rule, length, length-append, All, count_by, max,
  beq_refl, pair_eq, suc,
}
use vllm_source_gateway.Dict.{get_or-put}
use vllm_source_gateway.Http.{raises, HttpException}
use vllm_source_gateway.Admission.Config.{ticks_per_second}
use vllm_source_gateway.Admission.Controller.{
  Controller, cooldown_of, retries_of, too_many_requests, record_rejection,
}
use vllm_source_gateway.Admission.Acquire.{acquire, Acquired, retry_guard_error}
use vllm_source_gateway.Admission.Accounting.{
  record_retry_event, drop_old_retries, recent_retries, open_retry_guard, keep_retries,
}

-- The failures that still count at `now`.
abbrev pub recent : (now window : ℕ) → List ℕ → ℕ
recent now window = count_by (λ at. leb (now - at) window)

abbrev pub IsAscending : List ℕ → Type 0
IsAscending [] = Unit {0}
IsAscending (at ∷ times) = All (λ t. at ≤ t) times × IsAscending times

recent-All :
    (now window at : ℕ) (times : List ℕ)
    → now - at ≤ window
    → All (λ t. at ≤ t) times
    → recent now window times ≡ length times
recent-All now window at [] h a = refl
recent-All now window at (t ∷ times) h a = ground (arith, recent-All now window at times h a.1)

-- Of times in order `drop_old_retries` keeps those in the window, and no others.
pub length-drop_old_retries :
    (now window : ℕ) (times : List ℕ)
    → IsAscending times
    → length (drop_old_retries times now window) ≡ recent now window times
unfolding drop_old_retries
length-drop_old_retries now window [] a = refl
length-drop_old_retries now window (at ∷ times) a =
    ground
      (arith, length-drop_old_retries now window times a.1, recent-All now window at times, a.0)

pub length-recent_retries :
    (c : Controller) (now : ℕ) (d m : String)
    → IsAscending (retries_of c (d, m))
    → length (recent_retries c (d, m) now)
      ≡ suc (recent now c.config.retry_guard.window_seconds (retries_of c (d, m)))
unfolding recent_retries
length-recent_retries c now d m a =
    let window = c.config.retry_guard.window_seconds in
    omega (
      arith,
      length-append (drop_old_retries (retries_of c (d, m)) now window) (now ∷ []),
      length-drop_old_retries now window (retries_of c (d, m)) a,
    )

cooldown-open_retry_guard :
    (c : Controller) (now : ℕ) (d m : String)
    → cooldown_of (open_retry_guard c now d m) (d, m) ≡ now + c.config.retry_guard.cooldown_seconds
unfolding open_retry_guard
cooldown-open_retry_guard c now d m =
    get_or-put c.cooldown_until (d, m) (d, m) (now + c.config.retry_guard.cooldown_seconds) 0
    ∙ rw beq_refl

-- With admission control and the guard on and no cooldown running, a failure of the pair opens the
-- guard until `cooldown_seconds` from now exactly when it is at least the `max_events`-th failure
-- among those stored, in the order of their times, that are not older than the window; otherwise
-- the end of the cooldown stays as it was.
pub record_retry_event-opens :
    (c : Controller) (now : ℕ) (d m : String)
    → c.config.enabled ≡ true
    → c.config.retry_guard.enabled ≡ true
    → cooldown_of c (d, m) ≤ now
    → IsAscending (retries_of c (d, m))
    → cooldown_of (record_retry_event c now d m) (d, m) ≡ (
        if leb c.config.retry_guard.max_events
          (suc (recent now c.config.retry_guard.window_seconds (retries_of c (d, m))))
        then now + c.config.retry_guard.cooldown_seconds
        else cooldown_of c (d, m))
unfolding record_retry_event
record_retry_event-opens c now d m on guard_on cool ascending =
    let guard = c.config.retry_guard in
    let events = recent_retries c (d, m) now in
    let counted = length-recent_retries c now d m ascending in
    let due = leb guard.max_events (suc (recent now guard.window_seconds (retries_of c (d, m)))) in
    let P : Controller → Type 0 = λ q.
      cooldown_of q (d, m) ≡ (if due then now + guard.cooldown_seconds else cooldown_of c (d, m)) in
    if_rule P (not c.config.enabled || not guard.enabled) c _ (λ h. absurd (ground arith))
      λ _.
        if_rule P (ltb now (cooldown_of c (d, m))) c _ (λ h. absurd (ground arith))
          λ _.
            if_rule P (leb guard.max_events (length events) && leb (cooldown_of c (d, m)) now)
              (open_retry_guard c now d m) (keep_retries c (d, m) events)
              (λ h. ground (arith, counted, cooldown-open_retry_guard c now d m))
              (λ h. ground (arith, counted))

-- While the cooldown of the pair runs, with admission control on, `acquire` answers 429 with a
-- Retry-After of the whole seconds that are left, at least 1, and changes no more than the rejection
-- count; and a further failure of the pair changes nothing.
cooldown_closed :
    (c : Controller) (now : ℕ) (d m e : String)
    → c.config.enabled ≡ true
    → now < cooldown_of c (d, m)
    → (acquire c now d m e ≡ (
      raises (
          too_many_requests "retry guard is open"
            (max 1 ((cooldown_of c (d, m) - now) / ticks_per_second))),
      record_rejection c d m "retry_guard_open",
    ))
      × (record_retry_event c now d m ≡ c)
unfolding acquire record_retry_event retry_guard_error
cooldown_closed c now d m e on running =
    let refusal : Acquired =
      (retry_guard_error (cooldown_of c (d, m)) now, record_rejection c d m "retry_guard_open") in
    (
      if_rule (λ r. r ≡ refusal) (not c.config.enabled) _ _ (λ h. absurd (ground arith))
          λ _.
            if_rule (λ r. r ≡ refusal) (ltb now (cooldown_of c (d, m))) refusal _ (λ _. refl)
              (λ h. absurd (ground arith)),
      ground arith,
    )

-- The header is rounded down: with a second or more left that is not a whole number of seconds, it says
-- the whole seconds that are left, the rest cut off, and a caller that comes back after exactly that
-- many seconds is refused again by the open guard.
pub retry_after_too_early :
    (c : Controller) (now : ℕ) (d m e : String)
    → c.config.enabled ≡ true
    → now + ticks_per_second ≤ cooldown_of c (d, m)
    → 0 < (cooldown_of c (d, m) - now) % ticks_per_second
    → (x : HttpException) × (after : ℕ) × ((acquire c now d m e).0 ≡ raises x)
      × (x.retry_after ≡ some after)
      × (after * ticks_per_second ≤ cooldown_of c (d, m) - now)
      × (cooldown_of c (d, m) - now < suc after * ticks_per_second)
      × (y : HttpException) × ((acquire c (now + after * ticks_per_second) d m e).0 ≡ raises y)
      × (y.detail ≡ "retry guard is open")
unfolding too_many_requests
retry_after_too_early c now d m e on left uneven =
    let after : ℕ = max 1 ((cooldown_of c (d, m) - now) / ticks_per_second) in
    let back : ℕ = now + after * ticks_per_second in
    (
      too_many_requests "retry guard is open" after,
      after,
      ap (λ (r : Acquired). r.0) (cooldown_closed c now d m e on (omega arith)).0,
      refl,
      omega arith,
      omega arith,
      too_many_requests "retry guard is open"
          (max 1 ((cooldown_of c (d, m) - back) / ticks_per_second)),
      ap (λ (r : Acquired). r.0) (cooldown_closed c back d m e on (omega arith)).0,
      refl,
    )
