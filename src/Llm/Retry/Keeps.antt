-- ===== src/Llm/Retry/Keeps.antt =====
-- internal/llm/retry.go: what each call and each pause keeps, `Execute` keeps.
use Prim.Native.Nat.{zero}
use repodocs_go.Base.{◌+◌, suc, inl, inr, Bool-cases}
use repodocs_go.Llm.Retry.{
  is_nil, ℤ, Error, ℕ, Env, execute_from, execute, is_retryable_error, max_retries_of,
}

module _ {κ} {W : Type 0} (env : Env W) (backoff : ℕ → ℕ) (operation : W → Error × W)
    (P : W → Type κ) (called : (w : W) → P w → P (operation w).1)
    (slept : (d : ℕ) (w : W) → P w → P (env.sleep d w).1) where
  keeps_from :
      (left attempt : ℕ) (w : W) → P w → P (execute_from env backoff operation left attempt w).1
  unfolding execute_from
  keeps_from zero attempt w h = elim (Bool-cases (is_nil (env.ctx_err w))) [
    | inr done ↦ rw done h
    | inl live ↦ elim (Bool-cases (is_nil (operation w).0)) [
      | inl fine ↦ rw (live, fine) (called w h)
      | inr wrong ↦ elim (Bool-cases (is_retryable_error (operation w).0)) [
        | inl again ↦ rw (live, wrong, again) (called w h)
        | inr final ↦ rw (live, wrong, final) (called w h)
      ]
    ]
  ]
  keeps_from (suc left) attempt w h = elim (Bool-cases (is_nil (env.ctx_err w))) [
    | inr done ↦ rw done h
    | inl live ↦ elim (Bool-cases (is_nil (operation w).0)) [
      | inl fine ↦ rw (live, fine) (called w h)
      | inr wrong ↦ elim (Bool-cases (is_retryable_error (operation w).0)) [
        | inr final ↦ rw (live, wrong, final) (called w h)
        | inl again ↦
            let w' = env.sleep (backoff attempt) (operation w).1 in
            let h' = slept (backoff attempt) (operation w).1 (called w h) in
            elim (Bool-cases (is_nil w'.0)) [
              | inr interrupted ↦ rw (live, wrong, again, interrupted) h'
              | inl woken ↦ rw (live, wrong, again, woken) (keeps_from left (attempt + 1) w'.1 h')
            ]
      ]
    ]
  ]

  pub execute_keeps :
      (max_retries : ℤ) (w : W) → P w → P (execute env backoff operation max_retries w).1
  unfolding execute
  execute_keeps max_retries w h = keeps_from (max_retries_of max_retries) 0 w h
