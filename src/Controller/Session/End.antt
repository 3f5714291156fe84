-- ===== src/Controller/Session/End.antt =====
-- What the end of a session leaves behind.
use fuelflux.Base.{refl, ◌≡◌, ◌∙◌, true, false, arith, pos, [], some, Option-cases, inl, inr}
use fuelflux.Devices.Pump
use fuelflux.Devices.Pump.{Pump}
use fuelflux.Devices.Pump.Safety.{IsValid, stop_off}
use fuelflux.Services.{Services}
use fuelflux.Controller.{Controller, no_user, reset_session_data, clear_input_silent}
use fuelflux.Controller.Flow.{stop_pump, stop_meter}
use fuelflux.Controller.Flow.Frame.{Frame, Frame-trans, stop_pump-Frame, stop_meter-Frame}
use fuelflux.Controller.Flow.Metered.{metered, stopped-metered}
use fuelflux.Controller.Flow.Depth.{stop_pump-pump, stop_meter-pump}
use fuelflux.Controller.Session.{end_current_session, close_backend_session}

-- No trace of a session.
pub record IsClosed {B : Type 0} (c : Controller B) : Type 0 where
  pub nobody : c.current_user ≡ no_user
  pub no_tanks : c.available_tanks ≡ []
  pub no_cached_tanks : c.cached_fuel_tanks ≡ []
  pub no_tank : c.selected_tank ≡ pos 0
  pub no_volume : c.entered_volume ≡ pos 0
  pub no_target : c.target_refuel_volume ≡ pos 0
  pub no_input : c.current_input ≡ []
  pub online : c.session_authorized_from_cache ≡ false

module _ {B : Type 0} (ops : Services B) where
  stopped : Controller B → Controller B
  stopped c = stop_meter (stop_pump (clear_input_silent (reset_session_data c)))

  stopped-Frame : (c : Controller B) → Frame (clear_input_silent (reset_session_data c)) (stopped c)
  unfolding stopped
  stopped-Frame c =
      let d = clear_input_silent (reset_session_data c) in
      Frame-trans d (stop_pump d) (stop_meter (stop_pump d)) (stop_pump-Frame d)
        (stop_meter-Frame (stop_pump d))

  -- Only the backend's session is closed.
  record OnlyBackend (c d : Controller B) : Type 0 where
    frame : Frame (record c { backend = d.backend }) d
    pump : d.pump ≡ c.pump

  close_backend_session-OnlyBackend :
      (c : Controller B) → OnlyBackend c (close_backend_session ops c)
  unfolding close_backend_session
  close_backend_session-OnlyBackend c = ground arith

  close_backend_session-closed :
      (c : Controller B)
      → ((b : B) → ops.is_authorized (ops.deauthorize b).0 ≡ false)
      → c.session_authorized_from_cache ≡ false
      → (b : B) → (close_backend_session ops c).backend ≡ some b
      → ops.is_authorized b ≡ false
  unfolding close_backend_session
  close_backend_session-closed c law online b e = elim (Option-cases c.backend) [
    | inl missing ↦ absurd (ground (arith, missing))
    | inr (a, held) ↦ ground (arith, held, law a)
  ]

  end_current_session-session :
      (c : Controller B)
      → IsClosed (end_current_session ops c) × ((end_current_session ops c).state ≡ c.state)
  unfolding end_current_session stopped clear_input_silent reset_session_data
  end_current_session-session c =
      ground (arith, stopped-Frame c, (close_backend_session-OnlyBackend (stopped c)).frame)

  close_backend_session-volume :
      (c : Controller B)
      → (close_backend_session ops c).current_refuel_volume ≡ c.current_refuel_volume
  unfolding close_backend_session
  close_backend_session-volume c = ground arith

  end_current_session-volume :
      (c : Controller B)
      → (end_current_session ops c).current_refuel_volume ≡ metered (pos 0) c.flow_meter
  unfolding end_current_session clear_input_silent reset_session_data
  end_current_session-volume c =
      let d = clear_input_silent (reset_session_data c) in
      close_backend_session-volume (stop_meter (stop_pump d)) ∙ stopped-metered d refl

  -- A session that ends leaves no user, tank, entered volume, target or input behind, whatever it
  -- was, and the machine stays in its state. The refueled volume is zero, unless the flow meter was
  -- still measuring and has a callback: then it is the volume that the meter had measured.
  pub end_current_session-IsClosed :
      (c : Controller B)
      → IsClosed (end_current_session ops c)
        × ((end_current_session ops c).current_refuel_volume ≡ metered (pos 0) c.flow_meter)
        × ((end_current_session ops c).state ≡ c.state)
  end_current_session-IsClosed c =
      let (closed, same) = end_current_session-session c in
      (closed, end_current_session-volume c, same)

  -- The end of a session leaves a valid, connected pump whose relay obeys off, with its relay off.
  pub end_current_session-pump :
      (c : Controller B) (p : Pump)
      → c.pump ≡ some p
      → IsValid p
      → p.connected ≡ true
      → p.relay_ok ≡ true
      → (q : Pump) × ((end_current_session ops c).pump ≡ some q)
        × (q.running ≡ false)
        × (q.relay_on ≡ false)
  unfolding end_current_session clear_input_silent reset_session_data
  end_current_session-pump c p e valid connected ok =
      let d = clear_input_silent (reset_session_data c) in
      let (still, relay) = stop_off p valid connected ok in
      let halted : (stop_pump d).pump ≡ some (Pump.stop p).0 = ground (arith, stop_pump-pump d) in
      (
        (Pump.stop p).0,
        (close_backend_session-OnlyBackend (stop_meter (stop_pump d))).pump
            ∙ (stop_meter-pump (stop_pump d) (ground (arith, halted)) ∙ halted),
        still,
        relay,
      )

  -- The end of a session leaves none open at the backend, if a Deauthorize there closes the session.
  pub end_current_session-backend :
      (c : Controller B)
      → ((b : B) → ops.is_authorized (ops.deauthorize b).0 ≡ false)
      → (b : B) → (end_current_session ops c).backend ≡ some b
      → ops.is_authorized b ≡ false
  unfolding end_current_session
  end_current_session-backend c law b e =
      close_backend_session-closed (stopped c) law (online c) b (unfold stopped in e)
    where
      online : (c : Controller B) → (stopped c).session_authorized_from_cache ≡ false
      online c = unfold reset_session_data clear_input_silent in (stopped-Frame c).from_cache
