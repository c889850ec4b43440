-- ===== src/Prelude/Results.antt =====
-- `Result` with its error type, and the `?` operator as `do` blocks.
use mathlib.Core.Path.{◌≡◌, refl, subst}
use mathlib.Core.Logic.{◌⊎◌, inl, inr}
use mathlib.Core.Option.{Option, none, some}

pub data Result {ℓ κ} (E : Type κ) (A : Type ℓ) : Type (ℓ ⊔ κ) where
  ok : A → Result E A
  err : E → Result E A

infixl 5 ◌>>=◌
abbrev pub ◌>>=◌ {ℓ μ κ} :
    {E : Type κ} {A : Type ℓ} {B : Type μ} → Result E A → (A → Result E B) → Result E B
ok a >>= f = f a
err e >>= f = err e

abbrev pub map_err {ℓ κ μ} :
    {E : Type κ} {F : Type μ} {A : Type ℓ} → (E → F) → Result E A → Result F A
map_err f (ok a) = ok a
map_err f (err e) = err (f e)

abbrev pub ok_or {ℓ κ} : {E : Type κ} {A : Type ℓ} → Option A → E → Result E A
ok_or none e = err e
ok_or (some a) e = ok a

abbrev pub map_ok {ℓ μ κ} :
    {E : Type κ} {A : Type ℓ} {B : Type μ} → (A → B) → Result E A → Result E B
map_ok f (ok a) = ok (f a)
map_ok f (err e) = err e

-- `Option<Result<A, E>>` to `Result<Option<A>, E>`
abbrev pub transpose {ℓ κ} : {E : Type κ} {A : Type ℓ} → Option (Result E A) → Result E (Option A)
transpose none = ok none
transpose (some (ok a)) = ok (some a)
transpose (some (err e)) = err e

pub Result-cases {ℓ κ} :
    {E : Type κ} {A : Type ℓ} (r : Result E A) → ((a : A) × (r ≡ ok a)) ⊎ ((e : E) × (r ≡ err e))
Result-cases (ok a) = inl (a, refl)
Result-cases (err e) = inr (e, refl)

-- Of a result, what holds of its value if it has one.
abbrev pub AllOk {ℓ κ μ} : {E : Type κ} {A : Type ℓ} → (A → Type μ) → Result E A → Type μ
AllOk P (ok a) = P a
AllOk P (err e) = Unit

pub map_err-AllOk {ℓ κ μ ν} :
    {E : Type κ} {F : Type ν} {A : Type ℓ} (P : A → Type μ) (f : E → F) (m : Result E A)
    → ((a : A) → m ≡ ok a → P a)
    → AllOk P (map_err f m)
map_err-AllOk P f (ok a) h = h a refl
map_err-AllOk P f (err e) h = tt

pub AllOk-map {ℓ κ μ ν} :
    {E : Type κ} {A : Type ℓ} (P : A → Type μ) (Q : A → Type ν) (m : Result E A)
    → ((a : A) → P a → Q a)
    → AllOk P m
    → AllOk Q m
AllOk-map P Q (ok a) f h = f a h
AllOk-map P Q (err e) f h = tt

pub AllOk-ok {ℓ κ μ} :
    {E : Type κ} {A : Type ℓ} (P : A → Type μ) (m : Result E A) (a : A) → AllOk P m → m ≡ ok a → P a
AllOk-ok P m a h e = subst (AllOk P) e h
