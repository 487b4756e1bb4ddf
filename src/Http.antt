-- ===== src/Http.antt =====
-- The outcome of a handler: a value, an `HTTPException` that FastAPI turns into a response, any other
-- exception, which becomes the response 500, or the CancelledError of its task, which is no Exception.
-- `unfinished` is no outcome of the program: it marks a loop whose fuel was too small.
use vllm_source_gateway.Base.{ℕ, String, Option, none, ◌≡◌}

-- `retry_after` is the number in the header `Retry-After`, where the exception has one.
pub record HttpException : Type 0 where
  pub status_code : ℕ
  pub detail : String
  pub retry_after : Option ℕ

pub data Result {ℓ} (A : Type ℓ) : Type ℓ where
  ok : A → Result A
  raises : HttpException → Result A
  crashes cancels unfinished : Result A

-- A method on an object of type `S`: the state comes back also when it raises.
abbrev pub Outcome {ℓ} : Type ℓ → Type ℓ → Type ℓ
Outcome S A = Result A × S

abbrev pub plain_error : ℕ → String → HttpException
plain_error code text = record { status_code = code; detail = text; retry_after = none }

-- What holds of the value of a call that returns.
abbrev pub OnOk {ℓ} : {S A : Type ℓ} → (A → Type 0) → Outcome S A → Type 0
OnOk Q (ok a, s) = Q a
OnOk Q (raises x, s) = Unit {0}
OnOk Q (crashes, s) = Unit {0}
OnOk Q (cancels, s) = Unit {0}
OnOk Q (unfinished, s) = Unit {0}

pub OnOk-trivial {ℓ} : {S A : Type ℓ} (o : Outcome S A) → OnOk (λ _. Unit {0}) o
OnOk-trivial (ok a, s) = tt
OnOk-trivial (raises x, s) = tt
OnOk-trivial (crashes, s) = tt
OnOk-trivial (cancels, s) = tt
OnOk-trivial (unfinished, s) = tt

pub ok-injective {ℓ} : {A : Type ℓ} {a b : A} → ok a ≡ ok b → a ≡ b
ok-injective p = cc

-- What follows a call that may raise.
abbrev pub and_then {ℓ} : {S A B : Type ℓ} → Outcome S A → (A → S → Outcome S B) → Outcome S B
and_then (ok a, s) k = k a s
and_then (raises x, s) k = (raises x, s)
and_then (crashes, s) k = (crashes, s)
and_then (cancels, s) k = (cancels, s)
and_then (unfinished, s) k = (unfinished, s)

-- A call, then what follows it: `P` of the whole, where `Q` holds of the state after the call.
pub and_then_rule {ℓ κ μ} :
    {S A B : Type ℓ} (Q : Outcome S A → Type κ) (P : Outcome S B → Type μ) (m : Outcome S A)
    (k : A → S → Outcome S B)
    → Q m
    → ((a : A) (s : S) → Q (ok a, s) → P (k a s))
    → ((x : HttpException) (s : S) → Q (raises x, s) → P (raises x, s))
    → ((s : S) → Q (crashes, s) → P (crashes, s))
    → ((s : S) → Q (cancels, s) → P (cancels, s))
    → ((s : S) → Q (unfinished, s) → P (unfinished, s))
    → P (and_then m k)
and_then_rule Q P (ok a, s) k q on_ok on_raise on_crash on_cancel on_stuck = on_ok a s q
and_then_rule Q P (raises x, s) k q on_ok on_raise on_crash on_cancel on_stuck = on_raise x s q
and_then_rule Q P (crashes, s) k q on_ok on_raise on_crash on_cancel on_stuck = on_crash s q
and_then_rule Q P (cancels, s) k q on_ok on_raise on_crash on_cancel on_stuck = on_cancel s q
and_then_rule Q P (unfinished, s) k q on_ok on_raise on_crash on_cancel on_stuck = on_stuck s q
