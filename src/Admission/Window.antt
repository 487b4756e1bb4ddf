-- ===== src/Admission/Window.antt =====
-- `_drop_old_token_events` against the sliding window: of events in the order of their times it
-- keeps exactly those inside the window.
use vllm_source_gateway.Base.{
  ℕ, ◌≡◌, refl, ap, ◌≤◌, ◌<◌, ◌+◌, ◌-◌, List, [], ◌∷◌, ◌++◌, All, sum, sum-append, arith, ltb,
  if◌then◌else◌, Bool-cases, inl, inr,
}
use vllm_source_gateway.Admission.Controller.{TokenEvent, drop_old_token_events}

abbrev pub tokens_of : TokenEvent → ℕ
tokens_of (at, tokens) = tokens

-- The tokens of the events that are not older than the window.
abbrev pub window_sum : (now window : ℕ) → List TokenEvent → ℕ
window_sum now window = sum (λ e. if ltb window (now - e.0) then 0 else e.1)

abbrev pub IsExpired : (now window : ℕ) → TokenEvent → Type 0
IsExpired now window e = window < now - e.0

abbrev pub IsInside : (now window : ℕ) → TokenEvent → Type 0
IsInside now window e = now - e.0 ≤ window

-- Times that do not fall along the list.
abbrev pub IsAscending : List TokenEvent → Type 0
IsAscending [] = Unit {0}
IsAscending (e ∷ es) = All (λ x. e.0 ≤ x.0) es × IsAscending es

pub window_sum-append :
    (now window : ℕ) (xs ys : List TokenEvent)
    → window_sum now window (xs ++ ys) ≡ window_sum now window xs + window_sum now window ys
window_sum-append now window xs ys = sum-append _ xs ys

pub window_sum_expired :
    (now window : ℕ) (xs : List TokenEvent)
    → All (IsExpired now window) xs
    → window_sum now window xs ≡ 0
window_sum_expired now window [] h = refl
window_sum_expired now window (e ∷ xs) h = ground (arith, window_sum_expired now window xs h.1)

pub window_sum_inside :
    (now window : ℕ) (xs : List TokenEvent)
    → All (IsInside now window) xs
    → window_sum now window xs ≡ sum tokens_of xs
window_sum_inside now window [] h = refl
window_sum_inside now window (e ∷ xs) h = ground (arith, window_sum_inside now window xs h.1)

pub IsExpired-later :
    (last now window : ℕ) (xs : List TokenEvent)
    → last ≤ now
    → All (IsExpired last window) xs
    → All (IsExpired now window) xs
IsExpired-later last now window [] le h = tt
IsExpired-later last now window (e ∷ xs) le h =
    (omega (arith, h.0), IsExpired-later last now window xs le h.1)

IsInside-after :
    (now window at : ℕ) (xs : List TokenEvent)
    → now - at ≤ window
    → All (λ x. at ≤ x.0) xs
    → All (IsInside now window) xs
IsInside-after now window at [] le h = tt
IsInside-after now window at (e ∷ xs) le h =
    (omega (arith, h.0), IsInside-after now window at xs le h.1)

-- What `drop_old_token_events` returns: a split of the list.
pub record Split (now window : ℕ) (events kept : List TokenEvent) (removed : ℕ) : Type 0 where
  pub gone : List TokenEvent
  pub whole : events ≡ gone ++ kept
  pub expired : All (IsExpired now window) gone
  pub inside : All (IsInside now window) kept
  pub ascending : IsAscending kept
  pub removed_tokens : removed ≡ sum tokens_of gone

pub drop_old_token_events-Split :
    (now window : ℕ) (events : List TokenEvent)
    → IsAscending events
    → Split now window events
        (drop_old_token_events events now window).0
        (drop_old_token_events events now window).1
unfolding drop_old_token_events
drop_old_token_events-Split now window [] h = record {
  gone = [];
  whole = refl;
  expired = tt;
  inside = tt;
  ascending = tt;
  removed_tokens = refl;
}
drop_old_token_events-Split now window ((at, tokens) ∷ events) h =
    elim (Bool-cases (ltb window (now - at))) [
      | inl old ↦
          let ih = drop_old_token_events-Split now window events h.1 in
          rw old (record {
            gone = (at, tokens) ∷ ih.gone;
            whole = ap (◌∷◌ (at, tokens)) ih.whole;
            expired = (ground arith, ih.expired);
            inside = ih.inside;
            ascending = ih.ascending;
            removed_tokens = ap (◌+◌ tokens) ih.removed_tokens;
          })
      | inr young ↦ rw young (record {
        gone = [];
        whole = refl;
        expired = tt;
        inside = (ground arith, IsInside-after now window at events (ground arith) h.0);
        ascending = h;
        removed_tokens = refl;
      })
    ]
