-- ===== src/Prelude/Steps.antt =====
-- Steps one after the other.

-- From a state to another by any number of steps.
pub data Steps {S : Type 0} (R : S → S → Type 0) (s : S) : S → Type 0 where
  here : Steps R s s
  then_step : {t v : S} → Steps R s t → R t v → Steps R s v

-- What every step keeps, any number of steps keeps.
pub Steps-keep :
    {S : Type 0} (R : S → S → Type 0) (P : S → Type 0)
    → ((s t : S) → R s t → P s → P t)
    → (s t : S) → Steps R s t
    → P s
    → P t
Steps-keep R P keep s t here p = p
Steps-keep R P keep s t (then_step {t = before} steps r) p =
    keep before t r (Steps-keep R P keep s before steps p)
