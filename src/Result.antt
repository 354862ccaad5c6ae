-- ===== src/Result.antt =====
-- A call that returns false with an error text: the value, or which error.
use cdx.Base.{Bool, true, false, ◌≡◌, refl, ◌⊎◌, inl, inr, ◌≢◌}

pub data Result (E A : Type 0) : Type 0 where
  ok : A → Result E A
  err : E → Result E A

-- if (test) { error = e; return false; }
abbrev pub fail_if : {E : Type 0} → Bool → E → Result E (Unit {0})
fail_if true e = err e
fail_if false e = ok tt

pub ok_injective : {E A : Type 0} {a b : A} → ◌≡◌ {A = Result E A} (ok a) (ok b) → a ≡ b
ok_injective e = cc

infixl 5 ◌>>=◌ ◌>>◌
abbrev pub ◌>>=◌ : {E A B : Type 0} → Result E A → (A → Result E B) → Result E B
ok x >>= next = next x
err e >>= next = err e

-- What a successful chain of two steps did.
pub >>=-eq-ok :
    {E A B : Type 0} (step : Result E A) (next : A → Result E B) {answer : B}
    → (step >>= next) ≡ ok answer
    → (x : A) × (step ≡ ok x) × (next x ≡ ok answer)
>>=-eq-ok (err failure) next done = cc
>>=-eq-ok (ok x) next done = (x, refl, done)

-- A chain of two steps fails in one of them.
pub >>=-eq-err :
    {E A B : Type 0} (step : Result E A) (next : A → Result E B) {e : E}
    → (step >>= next) ≡ err e
    → (step ≡ err e) ⊎ ((x : A) × (step ≡ ok x) × (next x ≡ err e))
>>=-eq-err (err failure) next done = inl (cc)
>>=-eq-err (ok x) next done = inr (x, refl, done)

-- A chain that fails with what its first step cannot fail with fails behind it.
pub >>=-eq-err_later :
    {E A B : Type 0} (step : Result E A) (next : A → Result E B) {e : E}
    → step ≢ err e
    → (step >>= next) ≡ err e
    → (x : A) × (step ≡ ok x) × (next x ≡ err e)
>>=-eq-err_later (err failure) next other done = absurd (other (cc))
>>=-eq-err_later (ok x) next other done = (x, refl, done)

abbrev pub ◌>>◌ : {E B : Type 0} → Result E (Unit {0}) → Result E B → Result E B
step >> rest = step >>= λ _. rest

pub fail_if-eq-ok : {E : Type 0} (b : Bool) (e : E) → fail_if b e ≡ ok tt → b ≡ false
fail_if-eq-ok true e h = cc
fail_if-eq-ok false e h = refl

-- A step that fails if its test holds was passed.
pub fail_if-then :
    {E A : Type 0} (b : Bool) (e : E) (m : Result E A) {a : A}
    → (fail_if b e >> m) ≡ ok a
    → (b ≡ false) × (m ≡ ok a)
fail_if-then true e m h = cc
fail_if-then false e m h = (refl, h)
