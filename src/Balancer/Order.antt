-- ===== src/Balancer/Order.antt =====
-- The order on texts and endpoints that src/v2/flow_balancer.py compares them by.
use dpi_engine_python.Prelude.{◌≡◌, refl, ◌⊎◌, true, false, [], ◌∷◌, arith}
use dpi_engine_python.Prelude.Eq.{nat_eq, list_eq, list_beq_iff}
use dpi_engine_python.Text.{Str}
use dpi_engine_python.Balancer.{Endpoints, str_lt, endpoints_lt, endpoints_min}

str_lt_asymm : (s t : Str) → str_lt s t ≡ true → str_lt t s ≡ false
unfolding str_lt
str_lt_asymm s [] h = absurd (cc)
str_lt_asymm [] (y ∷ t) h = refl
str_lt_asymm (x ∷ s) (y ∷ t) h = ground (arith, str_lt_asymm s t)

str_lt_total : (s t : Str) → str_lt s t ≡ false → str_lt t s ≡ false → s ≡ t
unfolding str_lt
str_lt_total [] [] h k = refl
str_lt_total (x ∷ s) [] h k = absurd (cc)
str_lt_total [] (y ∷ t) h k = absurd (cc)
str_lt_total (x ∷ s) (y ∷ t) h k = ground (arith, str_lt_total s t)

module _ (a b : Endpoints) where
  endpoints_lt_asymm : endpoints_lt a b ≡ true → endpoints_lt b a ≡ false
  unfolding endpoints_lt
  endpoints_lt_asymm h = ground (
    arith,
    str_lt_asymm a.first_ip b.first_ip,
    str_lt_asymm a.second_ip b.second_ip,
    list_beq_iff a.first_ip b.first_ip,
    list_beq_iff b.first_ip a.first_ip,
    list_beq_iff a.second_ip b.second_ip,
    list_beq_iff b.second_ip a.second_ip,
  )

  endpoints_lt_total : endpoints_lt a b ≡ false → endpoints_lt b a ≡ false → a ≡ b
  unfolding endpoints_lt
  endpoints_lt_total h k = ground (
    arith,
    str_lt_total a.first_ip b.first_ip,
    str_lt_total a.second_ip b.second_ip,
    list_beq_iff a.first_ip b.first_ip,
    list_beq_iff b.first_ip a.first_ip,
    list_beq_iff a.second_ip b.second_ip,
    list_beq_iff b.second_ip a.second_ip,
  )

pub endpoints_min_comm : (a b : Endpoints) → endpoints_min a b ≡ endpoints_min b a
unfolding endpoints_min
endpoints_min_comm a b =
    ground (arith, endpoints_lt_asymm a b, endpoints_lt_asymm b a, endpoints_lt_total a b)

pub endpoints_min_cases : (a b : Endpoints) → (endpoints_min a b ≡ a) ⊎ (endpoints_min a b ≡ b)
unfolding endpoints_min
endpoints_min_cases a b = ground arith
