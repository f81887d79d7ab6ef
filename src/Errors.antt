-- ===== src/Errors.antt =====
-- errors.py: the failures that the platform reports, by class, and their exit codes.
pub mod Post
use nawat.Prelude.{ℕ, ◌≡◌, refl, ◌⊎◌, inl, inr, arith}

-- The classes of `NawatError`, `os_error` for an exception of the operating system, and `value_error` for one of Python itself, such as ValueError, OverflowError or AttributeError. The messages (`cause`, `remedy`, `held`) are not modelled.
pub data Error : Type 0 where
  nawat_error invalid_key invalid_config not_found store_unavailable : Error
  verification_failed insufficient_space offline protected param_error approval_required os_error
        value_error :
      Error

unfoldable pub exit_code : Error → ℕ
exit_code nawat_error = 1
exit_code invalid_key = 2
exit_code invalid_config = 2
exit_code not_found = 3
exit_code store_unavailable = 4
exit_code verification_failed = 5
exit_code insufficient_space = 6
exit_code offline = 7
exit_code protected = 8
exit_code param_error = 2
exit_code approval_required = 9
exit_code os_error = 1
exit_code value_error = 1

-- A function that may raise: what it returns, or the class of what it raises.
pub data Result {ℓ} (A : Type ℓ) : Type ℓ where
  err : Error → Result A
  ok : A → Result A

-- One call after another; the second is not made when the first raises.
infixl 5 ◌>>=◌
abbrev pub ◌>>=◌ {ℓ μ} : {A : Type ℓ} {B : Type μ} → Result A → (A → Result B) → Result B
m >>= f = elim m [ err e ↦ err e | ok a ↦ f a ]

infixl 5 ◌>>◌
abbrev pub ◌>>◌ {μ} : {B : Type μ} → Result (Unit {0}) → Result B → Result B
first >> next = first >>= λ _. next

pub Result-cases {ℓ} :
    {A : Type ℓ} (r : Result A) → ((a : A) × (r ≡ ok a)) ⊎ ((e : Error) × (r ≡ err e))
Result-cases (ok a) = inl (a, refl)
Result-cases (err e) = inr (e, refl)

-- When two calls return, the first returned, and the second for that.
pub bind_ok {ℓ μ} :
    {A : Type ℓ} {B : Type μ} (r : Result A) (f : A → Result B) (b : B)
    → (r >>= f) ≡ ok b
    → (a : A) × (r ≡ ok a) × (f a ≡ ok b)
bind_ok (ok a) f b h = (a, refl, h)
bind_ok (err e) f b h = absurd (ground (arith, h))

-- An operation on a state that may raise: what it changed before stays changed.
infixl 5 ◌▷◌
abbrev pub ◌▷◌ {ℓ} : {S A B : Type ℓ} → S × Result A → (A → S → S × Result B) → S × Result B
m ▷ f = elim m.1 [ ok a ↦ f a m.0 | err e ↦ (m.0, err e) ]

-- What holds of the state after the first operation, and is kept by the second, holds at the end.
pub ▷_ind {ℓ κ} :
    {S A B : Type ℓ} (P : S → Type κ) (s : S) (r : Result A) (f : A → S → S × Result B)
    → P s
    → ((a : A) → r ≡ ok a → P (f a s).0)
    → P ((s, r) ▷ f).0
▷_ind P s (ok a) f p q = q a refl
▷_ind P s (err e) f p q = p
