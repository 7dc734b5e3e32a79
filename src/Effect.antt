-- ===== src/Effect.antt =====
-- Calls of one component by another: a function of the state of the world that returns a value or an
-- error, and the state afterwards. The state is a parameter wherever it is used.
use go_notification.Prelude.{◌≡◌, refl}
use go_notification.Errs.{Err, Result, ok, err}

abbrev pub Effect {ℓ κ} : Type ℓ → Type κ → Type (ℓ ⊔ κ)
Effect S A = S → Result A × S

abbrev pub pure {ℓ κ} : {S : Type ℓ} {A : Type κ} → A → Effect S A
pure a s = (ok a, s)

abbrev pub fail {ℓ κ} : {S : Type ℓ} {A : Type κ} → Err → Effect S A
fail e s = (err e, s)

-- a value or an error that is computed without the world
abbrev pub lift {ℓ κ} : {S : Type ℓ} {A : Type κ} → Result A → Effect S A
lift r s = (r, s)

abbrev pub bind_result {ℓ κ μ} :
    {S : Type ℓ} {A : Type κ} {B : Type μ} → Result A × S → (A → Effect S B) → Result B × S
bind_result (ok a, s) f = f a s
bind_result (err e, s) f = (err e, s)

infixl 5 ◌>>=◌ ◌>>◌
abbrev pub ◌>>=◌ {ℓ κ μ} :
    {S : Type ℓ} {A : Type κ} {B : Type μ} → Effect S A → (A → Effect S B) → Effect S B
(m >>= f) s = bind_result (m s) f

abbrev pub ◌>>◌ {ℓ κ} : {S : Type ℓ} {B : Type κ} → Effect S (Unit {0}) → Effect S B → Effect S B
m >> k = m >>= λ _. k

-- the value and the error side by side, for a caller that goes on after an error
abbrev pub attempt {ℓ κ} : {S : Type ℓ} {A : Type κ} → Effect S A → Effect S (Result A)
attempt m s = let (r, s') = m s in (ok r, s')

abbrev pub map_error {ℓ} : {A : Type ℓ} → (Err → Err) → Result A → Result A
map_error f (ok a) = ok a
map_error f (err e) = err (f e)

-- the error wrapped by `fmt.Errorf`
abbrev pub wrap {ℓ κ} : {S : Type ℓ} {A : Type κ} → (Err → Err) → Effect S A → Effect S A
wrap f m s = let (r, s') = m s in (map_error f r, s')

-- what holds of every error, and of every result of the continuation, holds of the sequence
pub bind_result-elim {ℓ κ μ ν} :
    {S : Type ℓ} {A : Type κ} {B : Type μ} (P : Result B → Type ν) (m : Result A × S)
    (f : A → Effect S B)
    → ((e : Err) → m.0 ≡ err e → P (err e))
    → ((a : A) → m.0 ≡ ok a → P (f a m.1).0)
    → P (bind_result m f).0
bind_result-elim P (ok a, s) f on_error next = next a refl
bind_result-elim P (err e, s) f on_error next = on_error e refl

-- continuations that agree on the result
pub bind_result-cong {ℓ κ μ} :
    {S : Type ℓ} {A : Type κ} {B : Type μ} (m : Result A × S) (f g : A → Effect S B)
    → ((a : A) → m.0 ≡ ok a → f a m.1 ≡ g a m.1)
    → bind_result m f ≡ bind_result m g
bind_result-cong (ok a, s) f g same = same a refl
bind_result-cong (err e, s) f g same = refl

-- the result of a call that is used if there is no error, whose kind does not matter otherwise
abbrev pub recover {ℓ κ μ} :
    {S : Type ℓ} {A : Type κ} {B : Type μ} → Result A × S → (A → S → B) → (S → B) → B
recover (ok a, s) use_it otherwise = use_it a s
recover (err _, s) use_it otherwise = otherwise s

pub recover-elim {ℓ κ μ ν} :
    {S : Type ℓ} {A : Type κ} {B : Type μ} (P : B → Type ν) (m : Result A × S) (use_it : A → S → B)
    (otherwise : S → B)
    → ((a : A) → m.0 ≡ ok a → P (use_it a m.1))
    → ((e : Err) → m.0 ≡ err e → P (otherwise m.1))
    → P (recover m use_it otherwise)
recover-elim P (ok a, s) use_it otherwise used not_used = used a refl
recover-elim P (err e, s) use_it otherwise used not_used = not_used e refl
