-- ===== src/Prelude/Result.antt =====
-- Values of code that may raise: the exceptions that the modelled code can meet.
use mathlib.Core.Path.{◌≡◌, refl}

-- `no_fuel` stands for a loop that would not end; it is proved that none is. `other` is any error of the
-- code that the program calls.
pub data Error : Type 0 where
  index_error attribute_error value_error overflow_error zero_division type_error : Error
  import_error unbound_local runtime_error key_error os_error other no_fuel : Error

pub data Result {ℓ} (A : Type ℓ) : Type ℓ where
  err : Error → Result A
  ok : A → Result A

pub ok-inj : {A : Type 0} {x y : A} → ok x ≡ ok y → x ≡ y
ok-inj h = cc

module _ {ℓ κ} {A : Type ℓ} {B : Type κ} where
  infixl 10 ◌>>=◌
  abbrev pub ◌>>=◌ : Result A → (A → Result B) → Result B
  err raised >>= next = err raised
  ok value >>= next = next value

  -- A chain that ends well had a first part that ended well.
  pub >>=-eq-ok :
      (first : Result A) (next : A → Result B) {last : B}
      → (first >>= next) ≡ ok last
      → (value : A) × (first ≡ ok value) × (next value ≡ ok last)
  >>=-eq-ok (err raised) next h = cc
  >>=-eq-ok (ok value) next h = (value, refl, h)
