-- ===== src/Controller/Keep.antt =====
-- A branch keeps the state of the machine if both sides do.
use fuelflux.Base.{◌≡◌, Bool, true, false, if◌then◌else◌, Option, none, some}
use fuelflux.Types.{SystemState}
use fuelflux.Controller.{Controller}

module _ {B : Type 0} (s : SystemState) where
  pub if_keeps :
      (b : Bool) (c d : Controller B) → c.state ≡ s → d.state ≡ s → (if b then c else d).state ≡ s
  if_keeps true c d h k = h
  if_keeps false c d h k = k

  pub option_keeps :
      {A : Type 0} (o : Option A) (c : Controller B) (f : A → Controller B)
      → c.state ≡ s
      → ((a : A) → (f a).state ≡ s)
      → (elim o as (λ x. Controller B) [ none ↦ c | some a ↦ f a ]).state ≡ s
  option_keeps none c f h k = h
  option_keeps (some a) c f h k = k a
