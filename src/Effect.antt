-- ===== src/Effect.antt =====
-- Methods that mutate a state `W` and may fail with an error of type `E`: what was written before an
-- error stays written. `read` and `write` call a port, and turn its error into the method's by
-- `show` (the source's `map_err`).
use kokkeak_api.Prelude.{Option, none, some, refl, inl, inr, ◌≡◌, arith, ◌⊎◌}

pub data Outcome (E A : Type 0) : Type 0 where
  good : A → Outcome E A
  bad : E → Outcome E A

abbrev pub Method : Type 0 → Type 0 → Type 0 → Type 0
Method E W A = W → Outcome E A × W

infixl 5 ◌>>=◌ ◌>>◌
abbrev pub ◌>>=◌ : {E W A B : Type 0} → Method E W A → (A → Method E W B) → Method E W B
◌>>=◌ m f w = let (r, w') = m w in elim r [ good a ↦ f a w' | bad e ↦ (bad e, w') ]

abbrev pub ◌>>◌ : {E W A B : Type 0} → Method E W A → Method E W B → Method E W B
m >> k = m >>= λ _. k

abbrev pub pure : {E W A : Type 0} → A → Method E W A
pure a w = (good a, w)

abbrev pub raise : {E W A : Type 0} → E → Method E W A
raise e w = (bad e, w)

-- `ok_or(…)`
abbrev pub some_or : {E W A : Type 0} → E → Option A → Method E W A
some_or e none = raise e
some_or e (some a) = pure a

abbrev pub read : {F E W A : Type 0} → (F → E) → (W → Outcome F A) → Method E W A
read show f w = elim (f w) [ good a ↦ (good a, w) | bad e ↦ (bad (show e), w) ]

abbrev pub write : {F E W A : Type 0} → (F → E) → (W → Outcome F A × W) → Method E W A
write show f w = let (r, w') = f w in elim r [ good a ↦ (good a, w') | bad e ↦ (bad (show e), w') ]

-- A step whose result is known.
pub bind_good :
    {E W A B : Type 0} (m : Method E W A) (f : A → Method E W B) (w : W) (a : A)
    → (m w).0 ≡ good a
    → (m >>= f) w ≡ f a (m w).1
bind_good m f w a h = ground arith

pub bind_bad :
    {E W A B : Type 0} (m : Method E W A) (f : A → Method E W B) (w : W) (e : E)
    → (m w).0 ≡ bad e
    → (m >>= f) w ≡ (bad e, (m w).1)
bind_bad m f w e h = ground arith

pub Outcome-cases :
    {E A : Type 0} (o : Outcome E A) → ((a : A) × (o ≡ good a)) ⊎ ((e : E) × (o ≡ bad e))
Outcome-cases (good a) = inl (a, refl)
Outcome-cases (bad e) = inr (e, refl)
