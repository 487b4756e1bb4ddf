-- ===== src/Admission/Budget.antt =====
-- The state of one token budget against the whole record of its tokens: what the controller has
-- forgotten lies outside the window for good.
use mathlib.Core.List.{append_assoc}
use vllm_source_gateway.Base.{
  ℕ, ◌≡◌, ap, sym, ◌∙◌, ◌≤◌, ◌+◌, ◌-◌, List, [], ◌∷◌, ◌++◌, All, All-append, sum, sum-append, arith,
  beq, pair_eq, beq_refl, if◌then◌else◌, Bool-cases, inl, inr, false, ◌==◌, subst,
}
use vllm_source_gateway.Dict.{get_or-put}
use vllm_source_gateway.Admission.Controller.{
  Controller, Key, TokenEvent, events_of, total_of, drop_old_token_events, prune_tokens,
}
use vllm_source_gateway.Admission.Accounting.{append_tokens}
use vllm_source_gateway.Admission.Window.{
  tokens_of, window_sum, IsExpired, IsAscending, Split, drop_old_token_events-Split,
  window_sum-append, window_sum_expired, window_sum_inside, IsExpired-later,
}

-- `all` are the tokens that were ever recorded for the key, in order, the latest not after `last`.
pub record Tracks (window : ℕ) (c : Controller) (key : Key) (all : List TokenEvent) (last : ℕ)
    : Type 0 where
  pub old : List TokenEvent
  pub whole : all ≡ old ++ events_of c key
  pub gone : All (IsExpired last window) old
  pub total : total_of c key ≡ sum tokens_of (events_of c key)
  pub ascending : IsAscending (events_of c key)
  pub bounded : All (λ e. e.0 ≤ last) (events_of c key)

module _ (c : Controller) (k : Key) (now window : ℕ) where
  abbrev kept : List TokenEvent
  kept = (drop_old_token_events (events_of c k) now window).0

  abbrev removed : ℕ
  removed = (drop_old_token_events (events_of c k) now window).1

  pub events-prune :
      (j : Key)
      → events_of (prune_tokens c k now window) j ≡ (if beq k j then kept else events_of c j)
  unfolding prune_tokens
  events-prune j = get_or-put c.token_events k j kept []

  pub total-prune :
      (j : Key)
      → total_of (prune_tokens c k now window) j
        ≡ (if beq k j then total_of c k - removed else total_of c j)
  unfolding prune_tokens
  total-prune j = elim (Bool-cases (removed == 0)) [
    | inl none_removed ↦ rw none_removed (ground (arith, pair_eq.test_iff k j))
    | inr some_removed ↦ rw some_removed (get_or-put c.token_totals k j (total_of c k - removed) 0)
  ]

pub All-mono :
    (last now : ℕ) (xs : List TokenEvent)
    → last ≤ now
    → All (λ e. e.0 ≤ last) xs
    → All (λ e. e.0 ≤ now) xs
All-mono last now [] le h = tt
All-mono last now (x ∷ xs) le h = (omega (arith, h.0), All-mono last now xs le h.1)

All-right {ℓ κ} : {A : Type ℓ} (P : A → Type κ) (xs ys : List A) → All P (xs ++ ys) → All P ys
All-right P [] ys h = h
All-right P (x ∷ xs) ys h = All-right P xs ys h.1

IsAscending-concat :
    (now tokens : ℕ) (xs : List TokenEvent)
    → All (λ e. e.0 ≤ now) xs
    → IsAscending xs
    → IsAscending (xs ++ (now, tokens) ∷ [])
IsAscending-concat now tokens [] b h = (tt, tt)
IsAscending-concat now tokens (x ∷ xs) b h = (
  All-append (λ e. x.0 ≤ e.0) xs ((now, tokens) ∷ []) h.0 (b.0, tt),
  IsAscending-concat now tokens xs b.1 h.1,
)

module _ {window : ℕ} {c : Controller} {k : Key} {all : List TokenEvent} {last : ℕ} (now : ℕ)
    (later : last ≤ now) (t : Tracks window c k all last) where
  split : Split now window (events_of c k) (kept c k now window) (removed c k now window)
  split = drop_old_token_events-Split now window (events_of c k) t.ascending

  pruned_events : events_of (prune_tokens c k now window) k ≡ kept c k now window
  pruned_events = events-prune c k now window k ∙ rw beq_refl

  -- The total is exact: what is taken off is what the dropped events had.
  pruned_total : total_of (prune_tokens c k now window) k ≡ sum tokens_of (kept c k now window)
  pruned_total =
      total-prune c k now window k
      ∙ rw beq_refl (
          omega (
            arith,
            t.total,
            split.removed_tokens,
            ap (sum tokens_of) split.whole,
            sum-append tokens_of split.gone (kept c k now window),
          ))

  -- Dropping the old events loses nothing that is still in the window.
  pub prune-Tracks : Tracks window (prune_tokens c k now window) k all now
  prune-Tracks = record {
    old = t.old ++ split.gone;
    whole =
        t.whole
        ∙ ap (◌++◌ t.old) split.whole
        ∙ sym (append_assoc t.old split.gone (kept c k now window))
        ∙ ap (◌++◌ (t.old ++ split.gone)) (sym pruned_events);
    gone =
        All-append (IsExpired now window) t.old split.gone
          (IsExpired-later last now window t.old later t.gone) split.expired;
    total = rw pruned_events pruned_total;
    ascending = rw pruned_events split.ascending;
    bounded = rw pruned_events (
        All-mono last now (kept c k now window) later (
          All-right (λ e. e.0 ≤ last) split.gone (kept c k now window)
            (subst (All (λ e. e.0 ≤ last)) split.whole t.bounded)));
  }

  -- After the old events are dropped, the total is the tokens of the last `window` ticks.
  pub total-prune-window : total_of (prune_tokens c k now window) k ≡ window_sum now window all
  total-prune-window =
      pruned_total
      ∙ omega (
        arith,
        ap (window_sum now window) (t.whole ∙ ap (◌++◌ t.old) split.whole),
        window_sum-append now window t.old (split.gone ++ kept c k now window),
        window_sum-append now window split.gone (kept c k now window),
        window_sum_expired now window t.old (IsExpired-later last now window t.old later t.gone),
        window_sum_expired now window split.gone split.expired,
        window_sum_inside now window (kept c k now window) split.inside,
      )

-- Another key's old events are no matter of this one.
pub prune-Tracks_ne :
    {window : ℕ} {c : Controller} {k : Key} {all : List TokenEvent} {last : ℕ} (now : ℕ) (j : Key)
    (other : ℕ)
    → beq j k ≡ false
    → last ≤ now
    → Tracks window c k all last
    → Tracks window (prune_tokens c j now other) k all now
prune-Tracks_ne {window} {c} {k} {all} {last} now j other ne later t =
    let same_events : events_of (prune_tokens c j now other) k ≡ events_of c k =
      events-prune c j now other k ∙ rw ne in
    let same_total : total_of (prune_tokens c j now other) k ≡ total_of c k =
      total-prune c j now other k ∙ rw ne in
    record {
      old = t.old;
      whole = rw same_events t.whole;
      gone = IsExpired-later last now window t.old later t.gone;
      total = rw (same_events, same_total) t.total;
      ascending = rw same_events t.ascending;
      bounded = rw same_events (All-mono last now (events_of c k) later t.bounded);
    }

module _ {window : ℕ} {c : Controller} {k : Key} {all : List TokenEvent} (now tokens : ℕ) where
  -- A new record is in the window from now on.
  pub append-Tracks :
      Tracks window c k all now
      → Tracks window (append_tokens c k now tokens) k (all ++ (now, tokens) ∷ []) now
  unfolding append_tokens
  append-Tracks t =
      let new : List TokenEvent = events_of c k ++ (now, tokens) ∷ [] in
      let same_events : events_of (append_tokens c k now tokens) k ≡ new =
        get_or-put c.token_events k k new [] ∙ rw beq_refl in
      let same_total : total_of (append_tokens c k now tokens) k ≡ total_of c k + tokens =
        get_or-put c.token_totals k k (total_of c k + tokens) 0 ∙ rw beq_refl in
      record {
        old = t.old;
        whole =
            ap (λ (xs : List TokenEvent). xs ++ (now, tokens) ∷ []) t.whole
            ∙ append_assoc t.old (events_of c k) ((now, tokens) ∷ [])
            ∙ ap (◌++◌ t.old) (sym same_events);
        gone = t.gone;
        total =
            rw (same_events, same_total)
              (omega (arith, t.total, sum-append tokens_of (events_of c k) ((now, tokens) ∷ [])));
        ascending =
            rw same_events (IsAscending-concat now tokens (events_of c k) t.bounded t.ascending);
        bounded = rw same_events (
            All-append (λ e. e.0 ≤ now) (events_of c k) ((now, tokens) ∷ []) t.bounded
              (omega arith, tt));
      }

  pub append-Tracks_ne :
      (j : Key)
      → beq j k ≡ false
      → Tracks window c k all now
      → Tracks window (append_tokens c j now tokens) k all now
  unfolding append_tokens
  append-Tracks_ne j ne t =
      let same_events : events_of (append_tokens c j now tokens) k ≡ events_of c k =
        get_or-put c.token_events j k _ [] ∙ rw ne in
      let same_total : total_of (append_tokens c j now tokens) k ≡ total_of c k =
        get_or-put c.token_totals j k (total_of c j + tokens) 0 ∙ rw ne in
      record {
        old = t.old;
        whole = rw same_events t.whole;
        gone = t.gone;
        total = rw (same_events, same_total) t.total;
        ascending = rw same_events t.ascending;
        bounded = rw same_events t.bounded;
      }
