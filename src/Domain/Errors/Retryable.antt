-- ===== src/Domain/Errors/Retryable.antt =====
-- internal/domain/errors.go: which errors are retried, however they are wrapped.
use repodocs_go.Base.{true, false, ℕ, Bool, ◌≡◌, refl, List, [], ◌∷◌, ◌∙◌, String}
use repodocs_go.Domain.Errors.{
  is_transient, is_nil, Error, strategy_error, llm_error, url_error, wrapped, is_retryable,
}

-- One layer that an error may be wrapped in on its way up.
pub data Layer : Type 0 where
  in_strategy : String → String → Layer
  in_llm : String → ℕ → String → Layer
  in_url : Bool → Layer
  in_format : String → Layer

abbrev pub wrap : Layer → Error → Error
wrap (in_strategy s u) e = strategy_error s u e
wrap (in_llm p c m) e = llm_error p c m e
wrap (in_url t) e = url_error t e
wrap (in_format m) e = wrapped m e

abbrev pub wrap_all : List Layer → Error → Error
wrap_all [] e = e
wrap_all (l ∷ ls) e = wrap l (wrap_all ls e)

wrap_retryable : (l : Layer) (e : Error) → is_retryable (wrap l e) ≡ is_retryable e
unfolding is_retryable
wrap_retryable (in_strategy s u) e = refl
wrap_retryable (in_llm p c m) e = refl
wrap_retryable (in_url t) e = refl
wrap_retryable (in_format m) e = refl

-- Whether an error is retried does not change under any number of layers of context that are put
-- round it, those of a strategy, an LLM provider, net/url or fmt.Errorf.
pub wrap_all-retryable :
    (ls : List Layer) (e : Error) → is_retryable (wrap_all ls e) ≡ is_retryable e
wrap_all-retryable [] e = refl
wrap_all-retryable (l ∷ ls) e = wrap_retryable l (wrap_all ls e) ∙ wrap_all-retryable ls e

pub wrap_all-not_nil :
    (ls : List Layer) (e : Error) → is_nil e ≡ false → is_nil (wrap_all ls e) ≡ false
wrap_all-not_nil [] e h = h
wrap_all-not_nil (in_strategy s u ∷ ls) e h = refl
wrap_all-not_nil (in_llm p c m ∷ ls) e h = refl
wrap_all-not_nil (in_url t ∷ ls) e h = refl
wrap_all-not_nil (in_format m ∷ ls) e h = refl

-- So is whether it counts as transient.
pub wrap_all-transient :
    (ls : List Layer) (e : Error)
    → is_nil e ≡ false
    → is_retryable e ≡ true
    → is_transient (wrap_all ls e) ≡ true
unfolding is_transient
wrap_all-transient ls e there retried =
    rw (wrap_all-not_nil ls e there) (wrap_all-retryable ls e ∙ retried)
