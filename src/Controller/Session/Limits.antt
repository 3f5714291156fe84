-- ===== src/Controller/Session/Limits.antt =====
-- Which volumes and tanks the controller takes.
use fuelflux.Base.{
  ◌≡◌, refl, ◌↔◌, true, arith, pos, ◌≤ℤ◌, ◌<ℤ◌, List, [], ◌∷◌, ◌++◌, eqb_ℤ_iff, ◌⊎◌, In,
  if◌then◌else◌, inl, inr, Bool-cases, map,
}
use fuelflux.Types.{
  Volume, TankNumber, TankInfo, is_customer, is_operator, intake_selected, tank_selected,
}
use fuelflux.Services.{Services}
use fuelflux.Controller.{Controller}
use fuelflux.Controller.Session.{get_tank_volume, has_tank, select_tank}

-- What a volume must satisfy: it is positive, within the limit of the tank where the tank has one,
-- and within the allowance where the user is a customer.
pub record IsAllowed {B : Type 0} (ops : Services B) (c : Controller B) (v : Volume) : Type 0 where
  pub positive : pos 0 <ℤ v
  pub within_tank :
      pos 0 <ℤ get_tank_volume ops c c.selected_tank → v ≤ℤ get_tank_volume ops c c.selected_tank
  pub within_allowance : is_customer c.current_user.role ≡ true → v ≤ℤ c.current_user.allowance

pub has_tank_iff :
    (n : TankNumber) (ts : List TankInfo) → (has_tank n ts ≡ true) ↔ In n (map (λ t. t.number) ts)
unfolding has_tank
has_tank_iff n [] = (λ h. cc, λ h. absurd h)
has_tank_iff n (t ∷ ts) = ground (arith, eqb_ℤ_iff t.number n, has_tank_iff n ts)

-- A tank is selected exactly if it is one of those available; an operator goes on to an intake and
-- any other user to a refueling.
pub select_tank_lem :
    {B : Type 0} (c : Controller B) (n : TankNumber)
    → (In n (map (λ t. t.number) c.available_tanks)
        × (select_tank c n ≡ record c {
          selected_tank = n;
          event_queue =
              c.event_queue
              ++ (if is_operator c.current_user.role then intake_selected else tank_selected) ∷ [];
        }))
      ⊎ ((¬ In n (map (λ t. t.number) c.available_tanks)) × (select_tank c n ≡ c))
unfolding select_tank
select_tank_lem c n = elim (Bool-cases (has_tank n c.available_tanks)) [
  | inl h ↦ inl ((has_tank_iff n c.available_tanks).0 h, rw (h, select_tank) refl)
  | inr h ↦ inr (λ i. cc (h, (has_tank_iff n c.available_tanks).1 i), rw (h, select_tank) refl)
]
