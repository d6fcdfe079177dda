-- ===== src/Hooks/Retries.antt =====
-- internal/hooks/manager.go: how often a webhook is tried.
use acorde.Base.{
  ℕ, zero, suc, ◌+◌, ◌*◌, ◌≤◌, ◌<◌, ◌≡◌, refl, ap, ◌∙◌, ap, ◌∙◌, true, false, Option, none, some,
  inl, inr, ◌⊎◌, Bool-cases, ◌==◌, arith,
}
use acorde.Hooks.{Attempt, is_ok, WebhookConfig, turns, attempts_from, execute_webhook}

-- the first request that is answered well
pub record FirstOk (answers : ℕ → Attempt) (from k : ℕ) : Type 0 where
  pub later : from ≤ k
  pub ok : is_ok (answers k) ≡ true
  pub first : (j : ℕ) → from ≤ j → j < k → is_ok (answers j) ≡ false

last_error :
    (answers : ℕ → Attempt) (from left : ℕ)
    → (elim left as (λ n. Option Attempt) [
      | zero ↦ some (answers from)
      | suc n ↦ some (answers (suc from + n))
    ])
      ≡ some (answers (from + left))
last_error answers from zero = ap (λ n. some (answers n)) (omega arith)
last_error answers from (suc n) = ap (λ n. some (answers n)) (omega arith)

attempts_from_lem :
    (answers : ℕ → Attempt) (left from slept : ℕ) (last : Option Attempt)
    → let sent = attempts_from answers left from slept last in
      ((k : ℕ) × (k < from + left)
        × FirstOk answers from k
        × (sent.attempts ≡ suc k)
        × (sent.error ≡ none))
      ⊎ (((j : ℕ) → from ≤ j → j < from + left → is_ok (answers j) ≡ false)
          × (sent.attempts ≡ from + left)
          × (sent.error ≡ (elim left [ zero ↦ last | suc n ↦ some (answers (from + n)) ])))
unfolding attempts_from
attempts_from_lem answers zero from slept last =
    inr (λ j a b. absurd (omega arith), omega arith, refl)
attempts_from_lem answers (suc left) from slept last = elim (Bool-cases (is_ok (answers from))) [
  | inl ok ↦ inl (
    from,
    omega arith,
    record { later = omega arith; ok = ok; first = λ j a b. absurd (omega arith) },
    ground (arith, ok),
    ground (arith, ok),
  )
  | inr bad ↦
      let waited = slept + from * from in
      elim (attempts_from_lem answers left (suc from) waited (some (answers from))) [
        | inl (k, below, f, made, none_left) ↦ inl (
          k,
          omega (arith, below),
          record {
            later = omega (arith, f.later);
            ok = f.ok;
            first = λ j a b. elim (Bool-cases (j == from)) [
              | inl same ↦ ground (arith, bad, same)
              | inr differ ↦ f.first j (ground (arith, a, differ)) b
            ];
          },
          ground (arith, bad, made),
          ground (arith, bad, none_left),
        )
        | inr (all, made, error) ↦ inr (
          λ j a b. elim (Bool-cases (j == from)) [
            | inl same ↦ ground (arith, bad, same)
            | inr differ ↦ all j (ground (arith, a, differ)) (omega (arith, b))
          ],
          ground (arith, bad, made),
          ground (arith, bad, error ∙ last_error answers from left),
        )
      ]
]

from_zero :
    (answers : ℕ → Attempt) (left : ℕ)
    → (elim left as (λ n. Option Attempt) [ zero ↦ none | suc n ↦ some (answers (0 + n)) ])
      ≡ (elim left [ zero ↦ none | suc n ↦ some (answers n) ])
from_zero answers zero = refl
from_zero answers (suc n) = ap (λ m. some (answers m)) (omega arith)

-- A webhook that is executed is tried at most MaxRetries + 1 times, and not at all where MaxRetries is
-- negative. Either some request is answered with a status from 200 to 299, the first of these is the
-- last that is made, and there is no error; or none is, all the tries are made, and the error is
-- that of the last, none if there was no try.
pub execute_webhook_lem :
    (config : WebhookConfig) (answers : ℕ → Attempt)
    → let sent = execute_webhook config answers in
      let tries = turns config.max_retries in
      ((k : ℕ) × (k < tries) × FirstOk answers 0 k × (sent.attempts ≡ suc k) × (sent.error ≡ none))
      ⊎ (((j : ℕ) → 0 ≤ j → j < tries → is_ok (answers j) ≡ false)
          × (sent.attempts ≡ tries)
          × (sent.error ≡ (elim tries [ zero ↦ none | suc n ↦ some (answers n) ])))
unfolding execute_webhook
execute_webhook_lem config answers =
    elim (attempts_from_lem answers (turns config.max_retries) 0 0 none) [
      | inl (k, below, f, made, fine) ↦ inl (k, omega (arith, below), f, made, fine)
      | inr (all, made, error) ↦ inr (
        λ j a b. all j a (omega (arith, b)),
        omega (arith, made),
        error ∙ from_zero answers (turns config.max_retries),
      )
    ]
