-- ===== src/Live/Resolve.antt =====
-- Which interface is selected where none is requested.
use dpi_engine_python.Dict.{Dict}
use dpi_engine_python.Io.Calls.{Result-cases}
use dpi_engine_python.Live.{
  Iface, LivePacketCapture, is_loopback, get_hwaddr, is_candidate, candidates, LiveCall,
  get_if_hwaddr, Host,
}
use dpi_engine_python.Live.Capture.{choose, resolve_for, resolve_interface}
use dpi_engine_python.Prelude.{
  ◌≡◌, refl, sym, ◌≢◌, ◌⊎◌, inl, inr, Bool, true, false, not, ◌&&◌, Option, none, some, List, [],
  ◌∷◌, In, All, Bool-cases, arith,
}
use dpi_engine_python.Prelude.Eq.{◌==◌, list_eq, list_beq_iff, nat_eq}
use dpi_engine_python.Prelude.Result.{Error, ok, err, ok-inj}
use dpi_engine_python.Text.{Str, codes, truthy}

-- An interface with traffic: not the loopback one, and with an address that is not all zeros.
pub record IsUsable (iface : Iface) : Type 0 where
  pub no_loopback : is_loopback iface ≡ false
  pub addressed : get_hwaddr iface ≢ []
  pub not_zero : get_hwaddr iface ≢ codes "00:00:00:00:00:00"

usable_of :
    (looped filled zero_address : Bool)
    → (not looped && (filled && not zero_address)) ≡ true
    → (looped ≡ false) × (filled ≡ true) × (zero_address ≡ false)
usable_of looped filled zero_address h = ground arith

truthy-ne : (s : Str) → truthy (some s) ≡ true → s ≢ []
truthy-ne [] h = absurd cc
truthy-ne (c ∷ s) h = cc

is_candidate-IsUsable : (iface : Iface) → is_candidate iface ≡ true → IsUsable iface
unfolding is_candidate
is_candidate-IsUsable iface h =
    let (looped, filled, other) = usable_of _ _ _ h in
    record {
      no_loopback = looped;
      addressed = truthy-ne (get_hwaddr iface) filled;
      not_zero = λ same. cc (rw same at other);
    }

In-candidates :
    (ifaces : Dict Str Iface) (name : Str)
    → In name (candidates ifaces)
    → (iface : Iface) × In (name, iface) ifaces × IsUsable iface
unfolding candidates
In-candidates [] name h = absurd h
In-candidates ((other, iface) ∷ ifaces) name h = elim (Bool-cases (is_candidate iface)) [
  | inr skipped ↦
      let (found, there, usable) = In-candidates ifaces name (rw skipped at h) in
      (found, inr there, usable)
  | inl taken ↦ elim (rw taken at h) [
    | inl same ↦ (iface, inl (cc), is_candidate-IsUsable iface taken)
    | inr later ↦
        let (found, there, usable) = In-candidates ifaces name later in (found, inr there, usable)
  ]
]

is_candidate_of_IsUsable : (iface : Iface) → is_candidate iface ≡ false → ¬ IsUsable iface
unfolding is_candidate
is_candidate_of_IsUsable iface h u =
    let other = ne-beq (get_hwaddr iface) (codes "00:00:00:00:00:00") u.not_zero in
    let taken : is_candidate iface ≡ true =
      rw (u.no_loopback, filled (get_hwaddr iface) u.addressed, other) refl in
    cc
  where
    filled : (s : Str) → s ≢ [] → truthy (some s) ≡ true
    filled [] h = absurd (h refl)
    filled (c ∷ s) h = refl

    ne-beq : (s t : Str) → s ≢ t → (s == t) ≡ false
    ne-beq s t h = ground (arith, list_beq_iff s t)

candidates-none :
    (ifaces : Dict Str Iface) → candidates ifaces ≡ [] → All (λ e. ¬ IsUsable e.1) ifaces
unfolding candidates
candidates-none [] h = tt
candidates-none ((name, iface) ∷ ifaces) h = elim (Bool-cases (is_candidate iface)) [
  | inl taken ↦ cc (rw taken at h)
  | inr skipped ↦ (is_candidate_of_IsUsable iface skipped, candidates-none ifaces (rw skipped at h))
]

module _ {P : Type 0} (host : Host P) where
  choose-cases :
      (names : List Str) (log : List (LiveCall P)) (chosen : Option Str)
      → (choose host names log).result ≡ ok chosen
      → ((name : Str) × (chosen ≡ some name) × In name names) ⊎ ((chosen ≡ none) × (names ≡ []))
  unfolding choose
  choose-cases [] log chosen h = inr (sym (ok-inj h), refl)
  choose-cases (name ∷ names) log chosen h =
      elim (Result-cases (host.world log (get_if_hwaddr name))) [
        | inr (e, raised) ↦ absurd (never (rw raised at h))
        | inl (_, answered) ↦ inl (name, sym (ok-inj (rw answered at h)), inl refl)
      ]
    where
      never : {e : Error} → ¬ err e ≡ ok chosen
      never = cc

  -- Where no interface is requested and the resolution ends well, it selects an interface of the host
  -- that is not the loopback one and has an address that is not all zeros; or it selects none, and
  -- then no interface of the host is such.
  pub resolve_interface-auto :
      (c : LivePacketCapture) (log : List (LiveCall P)) (chosen : Option Str)
      → c.interface ≡ none
      → (resolve_interface host c log).result ≡ ok chosen
      → ((name : Str) × (iface : Iface) × (chosen ≡ some name)
          × In (name, iface) host.ifaces
          × IsUsable iface)
        ⊎ ((chosen ≡ none) × All (λ e. ¬ IsUsable e.1) host.ifaces)
  unfolding resolve_interface resolve_for
  resolve_interface-auto c log chosen auto h =
      elim (choose-cases (candidates host.ifaces) log chosen (rw auto at h)) [
        | inr (nothing, empty) ↦ inr (nothing, candidates-none host.ifaces empty)
        | inl (name, e, found) ↦
            let (iface, there, usable) = In-candidates host.ifaces name found in
            inl (name, iface, e, there, usable)
      ]
