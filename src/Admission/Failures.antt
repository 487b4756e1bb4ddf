-- ===== src/Admission/Failures.antt =====
-- The failures of a department and model, one after another: which of them opens the retry guard.
use mathlib.Core.List.{append_assoc, append-nil}
use vllm_source_gateway.Base.{
  ℕ, suc, String, ◌≡◌, refl, sym, subst, ap, ◌∙◌, ◌≤◌, ◌+◌, ◌-◌, List, [], ◌∷◌, ◌++◌, Bool, true,
  false, not, ◌&&◌, ◌||◌, leb, ltb, arith, if◌then◌else◌, if_rule, All, All-append, count_by-append,
  length, pair_eq, beq_refl,
}
use vllm_source_gateway.Dict.{get_or-put}
use vllm_source_gateway.Admission.Config.{AdmissionControlConfig, RetryGuardConfig}
use vllm_source_gateway.Admission.Controller.{Controller, cooldown_of, retries_of}
use vllm_source_gateway.Admission.Accounting.{
  record_retry_event, drop_old_retries, recent_retries, keep_retries,
}
use vllm_source_gateway.Admission.Guard.{
  recent, IsAscending, length-recent_retries, record_retry_event-opens,
}
use vllm_source_gateway.Admission.Dropped.{IsAscending-append, raise-All, drop_old_retries-Dropped}

-- Failures of the pair at these times.
abbrev pub fail_all : Controller → (d m : String) → List ℕ → Controller
fail_all c d m [] = c
fail_all c d m (now ∷ times) = fail_all (record_retry_event c now d m) d m times

-- A failure at `now` after those at `past`: with it there are `max_events` or more in the window.
abbrev pub is_due : RetryGuardConfig → (past : List ℕ) → (now : ℕ) → Bool
is_due guard past now = leb guard.max_events (suc (recent now guard.window_seconds past))

-- None of the failures at these times, after those at `past`, is due.
abbrev pub is_none_due : RetryGuardConfig → (past times : List ℕ) → Bool
is_none_due guard past [] = true
is_none_due guard past (now ∷ times) =
    not (is_due guard past now) && is_none_due guard (past ++ now ∷ []) times

-- Times in order, none before `last`.
abbrev pub IsFrom : ℕ → List ℕ → Type 0
IsFrom last [] = Unit {0}
IsFrom last (now ∷ times) = (last ≤ now) × IsFrom now times

module _ (config : AdmissionControlConfig) (d m : String) (cooldown : ℕ)
    (on : config.enabled ≡ true) (guard_on : config.retry_guard.enabled ≡ true) where
  -- What is kept of the failures at `past`, the last one at `last`, while the guard stays closed.
  record Kept (c : Controller) (past : List ℕ) (last : ℕ) : Type 0 where
    same_config : c.config ≡ config
    closed : cooldown_of c (d, m) ≡ cooldown
    ascending : IsAscending (retries_of c (d, m))
    bounded : All (λ t. t ≤ last) (retries_of c (d, m))
    counts :
        (now : ℕ)
        → last ≤ now
        → recent now config.retry_guard.window_seconds past
          ≡ recent now config.retry_guard.window_seconds (retries_of c (d, m))

  -- The stored times give the count that all of them give.
  due-stored :
      (c : Controller) (past : List ℕ) (last now : ℕ)
      → Kept c past last
      → last ≤ now
      → leb c.config.retry_guard.max_events
          (suc (recent now c.config.retry_guard.window_seconds (retries_of c (d, m))))
        ≡ is_due config.retry_guard past now
  due-stored c past last now k later =
      ap
        (λ (g : AdmissionControlConfig).
          leb g.retry_guard.max_events
            (suc (recent now g.retry_guard.window_seconds (retries_of c (d, m)))))
        k.same_config
      ∙ ap (λ (n : ℕ). leb config.retry_guard.max_events (suc n)) (sym (k.counts now later))

  -- A failure that is not due is kept.
  not_due-keeps :
      (c : Controller) (past : List ℕ) (last now : ℕ)
      → Kept c past last
      → last ≤ now
      → cooldown ≤ now
      → is_due config.retry_guard past now ≡ false
      → record_retry_event c now d m ≡ keep_retries c (d, m) (recent_retries c (d, m) now)
  unfolding record_retry_event
  not_due-keeps c past last now k later cool early =
      let P : Controller → Type 0 = λ q. q ≡ keep_retries c (d, m) (recent_retries c (d, m) now) in
      let on_here : c.config.enabled ≡ true =
        ap (λ (g : AdmissionControlConfig). g.enabled) k.same_config ∙ on in
      let guard_here : c.config.retry_guard.enabled ≡ true =
        ap (λ (g : AdmissionControlConfig). g.retry_guard.enabled) k.same_config ∙ guard_on in
      let events = recent_retries c (d, m) now in
      if_rule P (not c.config.enabled || not c.config.retry_guard.enabled) _ _
        (λ h. absurd (ground (arith, h, on_here, guard_here)))
        λ _.
          if_rule P (ltb now (cooldown_of c (d, m))) _ _
            (λ h. absurd (ground (arith, h, k.closed, cool)))
            λ _.
              if_rule P
                (leb c.config.retry_guard.max_events (length events)
                  && leb (cooldown_of c (d, m)) now)
                _ _
                (λ h. absurd (
                  ground (
                    arith,
                    h,
                    length-recent_retries c now d m k.ascending,
                    due-stored c past last now k later,
                    early,
                  )))
                λ _. refl

  retries-keep_retries :
      (c : Controller) (events : List ℕ) → retries_of (keep_retries c (d, m) events) (d, m) ≡ events
  unfolding keep_retries
  retries-keep_retries c events = get_or-put c.retry_events (d, m) (d, m) events [] ∙ rw beq_refl

  keep_retries-Kept :
      (c : Controller) (past : List ℕ) (last now : ℕ)
      → Kept c past last
      → last ≤ now
      → Kept (keep_retries c (d, m) (recent_retries c (d, m) now)) (past ++ now ∷ []) now
  unfolding keep_retries recent_retries
  keep_retries-Kept c past last now k later =
      let window = config.retry_guard.window_seconds in
      let events = recent_retries c (d, m) now in
      let stored = retries_of c (d, m) in
      let same = retries-keep_retries c events in
      let dropped =
        drop_old_retries-Dropped now c.config.retry_guard.window_seconds stored k.ascending
          (raise-All stored last now later k.bounded) in
      let kept = drop_old_retries stored now c.config.retry_guard.window_seconds in
      let same_window : c.config.retry_guard.window_seconds ≡ window =
        ap (λ (g : AdmissionControlConfig). g.retry_guard.window_seconds) k.same_config in
      record {
        same_config = k.same_config;
        closed = k.closed;
        ascending =
            subst IsAscending (sym same)
              (IsAscending-append kept now dropped.ascending dropped.bounded);
        bounded =
            subst (λ (times : List ℕ). All (λ t. t ≤ now) times) (sym same)
              (All-append (λ t. t ≤ now) kept (now ∷ []) dropped.bounded (omega arith, tt));
        counts = λ at here.
            let after : last ≤ at = omega (arith, later, here) in
            let lost_none : recent at window stored ≡ recent at window kept =
              subst (λ (w : ℕ). recent at w stored ≡ recent at w kept) same_window
                (dropped.counts at here) in
            count_by-append (λ t. leb (at - t) window) past (now ∷ [])
            ∙ ap (λ (n : ℕ). n + recent at window (now ∷ [])) (k.counts at after ∙ lost_none)
            ∙ sym (count_by-append (λ t. leb (at - t) window) kept (now ∷ []))
            ∙ ap (recent at window) (sym same);
      }

  fail_all-Kept :
      (c : Controller) (past times : List ℕ) (last : ℕ)
      → Kept c past last
      → cooldown ≤ last
      → IsFrom last times
      → is_none_due config.retry_guard past times ≡ true
      → (end : ℕ) × Kept (fail_all c d m times) (past ++ times) end
        × (cooldown ≤ end)
        × ((now : ℕ) → IsFrom last (times ++ now ∷ []) → end ≤ now)
  fail_all-Kept c past [] last k cool ordered none_due = (last, rw append-nil k, cool, λ now h. h.0)
  fail_all-Kept c past (now ∷ times) last k cool ordered none_due =
      let cool_now : cooldown ≤ now = omega (arith, cool, ordered.0) in
      let early : is_due config.retry_guard past now ≡ false = ground (arith, none_due) in
      let next : Kept (record_retry_event c now d m) (past ++ now ∷ []) now =
        subst (λ (q : Controller). Kept q (past ++ now ∷ []) now)
          (sym (not_due-keeps c past last now k ordered.0 cool_now early))
          (keep_retries-Kept c past last now k ordered.0) in
      let (end, kept, cool_end, before) =
        fail_all-Kept (record_retry_event c now d m) (past ++ now ∷ []) times now next cool_now
          ordered.1 (ground (arith, none_due)) in
      (
        end,
        subst (λ (all : List ℕ). Kept (fail_all (record_retry_event c now d m) d m times) all end)
            (append_assoc past (now ∷ []) times) kept,
        cool_end,
        λ at h. before at h.1,
      )

fail_all-append :
    (c : Controller) (d m : String) (past : List ℕ) (now : ℕ)
    → fail_all c d m (past ++ now ∷ []) ≡ record_retry_event (fail_all c d m past) now d m
fail_all-append c d m [] now = refl
fail_all-append c d m (t ∷ past) now = fail_all-append (record_retry_event c t d m) d m past now

IsFrom-front : (last now : ℕ) (times : List ℕ) → IsFrom last (times ++ now ∷ []) → IsFrom last times
IsFrom-front last now [] h = tt
IsFrom-front last now (t ∷ times) h = (h.0, IsFrom-front t now times h.1)

-- With admission control and the guard on, no failure of the pair stored, and a cooldown of it, if any,
-- that is over at `start`: after failures of the pair at the times `past` and then `now`, in this order
-- and none before `start`, of which none at `past` is due, the guard is opened until `cooldown_seconds`
-- from `now` exactly when the one at `now` is due, that is, when it is at least the `max_events`-th
-- failure among all of them that are not older than the window. Otherwise the end of the cooldown is
-- what it was.
pub fail_all-opens :
    (c : Controller) (d m : String) (start now : ℕ) (past : List ℕ)
    → c.config.enabled ≡ true
    → c.config.retry_guard.enabled ≡ true
    → retries_of c (d, m) ≡ []
    → cooldown_of c (d, m) ≤ start
    → IsFrom start (past ++ now ∷ [])
    → is_none_due c.config.retry_guard [] past ≡ true
    → cooldown_of (fail_all c d m (past ++ now ∷ [])) (d, m) ≡ (
        if is_due c.config.retry_guard past now
        then now + c.config.retry_guard.cooldown_seconds
        else cooldown_of c (d, m))
fail_all-opens c d m start now past on guard_on fresh cool ordered none_due =
    let first : Kept c.config d m (cooldown_of c (d, m)) on guard_on c [] start = record {
      same_config = refl;
      closed = refl;
      ascending = rw fresh tt;
      bounded = rw fresh tt;
      counts = λ at _. rw fresh refl;
    } in
    let (end, kept, cool_end, before) =
      fail_all-Kept c.config d m (cooldown_of c (d, m)) on guard_on c [] past start first cool
        (IsFrom-front start now past ordered) none_due in
    let q = fail_all c d m past in
    let later : end ≤ now = before now ordered in
    let due = is_due c.config.retry_guard past now in
    let on_q : q.config.enabled ≡ true =
      ap (λ (g : AdmissionControlConfig). g.enabled) kept.same_config ∙ on in
    let guard_q : q.config.retry_guard.enabled ≡ true =
      ap (λ (g : AdmissionControlConfig). g.retry_guard.enabled) kept.same_config ∙ guard_on in
    let cool_q : cooldown_of q (d, m) ≤ now = omega (arith, kept.closed, cool_end, later) in
    ap (λ (p : Controller). cooldown_of p (d, m)) (fail_all-append c d m past now)
    ∙ record_retry_event-opens q now d m on_q guard_q cool_q kept.ascending
    ∙ ap
        (λ (b : Bool).
          if b then now + q.config.retry_guard.cooldown_seconds else cooldown_of q (d, m))
        (due-stored c.config d m (cooldown_of c (d, m)) on guard_on q past end now kept later)
    ∙ ap
        (λ (g : AdmissionControlConfig).
          if due then now + g.retry_guard.cooldown_seconds else cooldown_of q (d, m))
        kept.same_config
    ∙ ap (λ (n : ℕ). if due then now + c.config.retry_guard.cooldown_seconds else n) kept.closed
