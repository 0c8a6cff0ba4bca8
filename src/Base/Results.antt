-- ===== src/Base/Results.antt =====
-- Rust's `Result<T, String>` with its early returns.
use Prim.Native.String.{String}
use mathlib.Core.Path.{◌≡◌, refl}
use mathlib.Core.Bool.{Bool, true, false}
use mathlib.Core.Option.{Option, none, some}
use mathlib.Core.List.{List, [], ◌∷◌}

pub data Result {ℓ} (Value : Type ℓ) : Type ℓ where
  err : String → Result Value
  ok : Value → Result Value

-- `?` on a check that yields nothing, and on a value, followed by the rest of the body.
infixl 5 ◌>>◌ ◌>>=◌
abbrev pub ◌>>◌ {κ} : {Rest : Type κ} → Result (Unit {0}) → Result Rest → Result Rest
err message >> rest = err message
ok _ >> rest = rest

abbrev pub ◌>>=◌ {κ ℓ} :
    {Value : Type κ} {Rest : Type ℓ} → Result Value → (Value → Result Rest) → Result Rest
err message >>= rest = err message
ok value >>= rest = rest value

-- `if b { return Err(e) }`
abbrev pub refuse_if : Bool → String → Result (Unit {0})
refuse_if true e = err e
refuse_if false e = ok tt

abbrev pub ok_or {ℓ} : {A : Type ℓ} → Option A → String → Result A
ok_or none e = err e
ok_or (some a) e = ok a

-- `for x in xs { check(x)?; }`
abbrev pub for_each {ℓ} : {A : Type ℓ} → (A → Result (Unit {0})) → List A → Result (Unit {0})
for_each f [] = ok tt
for_each f (x ∷ xs) = f x >> for_each f xs

module _ {κ} {Rest : Type κ} {out : Rest} where
  -- A body that succeeds has passed its first check, and then the others.
  pub >>-eq-ok :
      (check : Result (Unit {0})) (rest : Result Rest)
      → (check >> rest) ≡ ok out
      → (check ≡ ok tt) × (rest ≡ ok out)
  >>-eq-ok (err message) rest passed = cc
  >>-eq-ok (ok tt) rest passed = (refl, passed)

  pub >>=-eq-ok {ℓ} :
      {Value : Type ℓ} (first : Result Value) (rest : Value → Result Rest)
      → (first >>= rest) ≡ ok out
      → (value : Value) × (first ≡ ok value) × (rest value ≡ ok out)
  >>=-eq-ok (err message) rest passed = cc
  >>=-eq-ok (ok value) rest passed = (value, refl, passed)

pub refuse_if-eq-ok : (b : Bool) (e : String) → refuse_if b e ≡ ok tt → b ≡ false
refuse_if-eq-ok true e h = cc
refuse_if-eq-ok false e h = refl

pub ok_or-eq-ok {ℓ} :
    {A : Type ℓ} (o : Option A) (e : String) {a : A} → ok_or o e ≡ ok a → o ≡ some a
ok_or-eq-ok none e h = cc
ok_or-eq-ok (some a) e h = cc

pub ok-injective {ℓ} : {A : Type ℓ} {a b : A} → ok a ≡ ok b → a ≡ b
ok-injective h = cc

pub some-eq {ℓ} : {A : Type ℓ} {a b : A} → some a ≡ some b → a ≡ b
some-eq h = cc
