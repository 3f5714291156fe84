-- ===== src/Machine/Graph.antt =====
-- What the transition table says: where it has entries, how a refueling is reached, and the ways
-- back to the waiting state.
use fuelflux.Base.{
  ◌≡◌, refl, ◌≢◌, ◌⊎◌, inl, inr, Bool, true, false, not, none, some, is_some, arith, List, [], ◌∷◌,
  ℕ, zero, suc, ◌≤◌, sym, subst, length,
}
use native.Mathlib.Decide.{dec_le}
use fuelflux.Types.{
  SystemState, waiting, authorization, tank_selection, volume_entry, refueling,
  refuel_data_transmission, intake_data_transmission, error, Event, card_presented,
  authorization_success, authorization_denied, authorization_failed, tank_selected, volume_entered,
  refueling_stopped, data_transmission_complete, cancel_pressed, cancel_no_fuel, timeout,
  display_reset,
}
use fuelflux.Machine.Table.{Row, transition, no_op, on_volume_entered, on_timeout}
use fuelflux.Machine.Process.{is_timeout_enabled}

-- The pairs that the table has no entry for.
abbrev pub has_no_entry : SystemState → Event → Bool
has_no_entry error authorization_denied = true
has_no_entry s cancel_no_fuel = true
has_no_entry s display_reset = true
has_no_entry s e = false

-- The table has an entry for every state and every event but two that are handled before the lookup,
-- and but `authorization_denied` in the error state.
pub transition_defined :
    (s : SystemState) (e : Event) → is_some (transition s e) ≡ not (has_no_entry s e)
unfolding transition
transition_defined waiting card_presented = refl
transition_defined _ e = ground arith

-- The state after a row.
abbrev pub target : SystemState → Row → SystemState
target s none = s
target s (some (t, a)) = t

abbrev pub next_state : SystemState → Event → SystemState
next_state s e = target s (transition s e)

-- A refueling begins only with a volume that was entered and taken, and that move runs the action
-- that starts the pump.
pub refueling_entry :
    (s : SystemState) (e : Event)
    → s ≢ refueling
    → next_state s e ≡ refueling
    → (s ≡ volume_entry)
      × (e ≡ volume_entered)
      × (transition s e ≡ some (refueling, on_volume_entered))
unfolding transition
refueling_entry waiting card_presented n h = ground arith
refueling_entry _ _ n h = ground arith

-- The machine's run over a list of events, with nothing but the table.
unfoldable pub path : SystemState → List Event → SystemState
path s [] = s
path s (e ∷ es) = path (next_state s e) es

-- The pattern stands in the list, in its order, with other events between.
pub data Embeds : List Event → List Event → Type 0 where
  done : {es : List Event} → Embeds [] es
  take : {e : Event} {p es : List Event} → Embeds p es → Embeds (e ∷ p) (e ∷ es)
  skip : {e : Event} {p es : List Event} → Embeds p es → Embeds p (e ∷ es)

-- How many stages a state is away from a refueling.
abbrev level : SystemState → ℕ
level refueling = 0
level volume_entry = 1
level tank_selection = 2
level _ = 3

-- The event that ends a stage.
abbrev stage : ℕ → Event
stage zero = volume_entered
stage (suc zero) = tank_selected
stage (suc (suc n)) = authorization_success

abbrev plan : ℕ → List Event
plan zero = []
plan (suc n) = stage n ∷ plan n

-- One event ends one stage at most, and only the event of that stage does.
level_step :
    (s : SystemState) (e : Event)
    → (level s ≤ level (next_state s e))
      ⊎ ((level s ≡ suc (level (next_state s e))) × (e ≡ stage (level (next_state s e))))
unfolding transition
level_step waiting card_presented = ground arith
level_step _ e = ground arith

Embeds-tail : {e : Event} {p es : List Event} → Embeds (e ∷ p) es → Embeds p es
Embeds-tail (take h) = skip h
Embeds-tail (skip h) = skip (Embeds-tail h)

same_plan : (m n : ℕ) {es : List Event} → m ≡ n → Embeds (plan n) es → Embeds (plan m) es
same_plan m n {es} same h = subst (λ k. Embeds (plan k) es) (sym same) h

Embeds-plan : (m n : ℕ) {es : List Event} → m ≤ n → Embeds (plan n) es → Embeds (plan m) es
Embeds-plan m zero l h = same_plan m 0 (omega arith) h
Embeds-plan m (suc n) l h = elim (dec_le m n) [
  | yes below ↦ Embeds-plan m n below (Embeds-tail h)
  | no above ↦ same_plan m (suc n) (omega arith) h
]

path-level :
    (s : SystemState) (es : List Event) → path s es ≡ refueling → Embeds (plan (level s)) es
unfolding path
path-level s [] h = subst (λ t. Embeds (plan (level t)) []) (sym h) done
path-level s (e ∷ es) h = elim (level_step s e) [
  | inl l ↦ Embeds-plan (level s) _ l (skip (path-level (next_state s e) es h))
  | inr (l, stage_event) ↦
      subst (λ k. Embeds (plan k) (e ∷ es)) (sym l)
        (subst (λ f. Embeds (f ∷ plan (level (next_state s e))) (e ∷ es)) stage_event
          (take (path-level (next_state s e) es h)))
]

-- No list of events takes the waiting machine to a refueling without a successful authorization,
-- then a tank, then a volume that was taken, in this order.
pub refueling_needs_stages :
    (es : List Event)
    → path waiting es ≡ refueling
    → Embeds (authorization_success ∷ tank_selected ∷ volume_entered ∷ []) es
refueling_needs_stages es h = path-level waiting es h

-- The states that the timeout thread watches leave for the waiting state at a timeout, but for the
-- error state, which stays; in all others a timeout changes nothing.
pub timeout_moves :
    (s : SystemState)
    → ((is_timeout_enabled s ≡ true)
        × ((transition s timeout ≡ some (waiting, on_timeout)) ⊎ (s ≡ error)))
      ⊎ ((is_timeout_enabled s ≡ false) × (transition s timeout ≡ some (s, no_op)))
unfolding transition is_timeout_enabled
timeout_moves waiting = ground arith
timeout_moves _ = ground arith

-- A way home from each state, by events of the user, the pump, the backend and the timeout thread.
abbrev pub way_home : SystemState → List Event
way_home waiting = []
way_home authorization = authorization_failed ∷ timeout ∷ []
way_home refueling = refueling_stopped ∷ data_transmission_complete ∷ timeout ∷ []
way_home refuel_data_transmission = data_transmission_complete ∷ timeout ∷ []
way_home intake_data_transmission = data_transmission_complete ∷ timeout ∷ []
way_home error = cancel_pressed ∷ []
way_home _ = timeout ∷ []

-- The machine is stuck in no state: a list of at most three events takes it back to waiting.
pub way_home_lem : (s : SystemState) → (path s (way_home s) ≡ waiting) × (length (way_home s) ≤ 3)
unfolding path transition
way_home_lem waiting = (refl, omega arith)
way_home_lem _ = (refl, omega arith)
