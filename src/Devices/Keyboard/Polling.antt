-- ===== src/Devices/Keyboard/Polling.antt =====
-- HardwareKeyboard::pollLoop: the rounds of the polling thread.
use fuelflux.Base.{
  ℕ, Bool, true, false, ◌==◌, if◌then◌else◌, List, [], ◌∷◌, ◌++◌, Option, none, some,
}
use fuelflux.Types.{KeyCode}
use fuelflux.Devices.Keyboard.Scan.{Expander, Found, scan_key, char_to_key_code}

-- The variables of the thread: whether it waits for a key's release, whether an exception ended it,
-- which also ends the connection, and the keys that it gave to the callback, the first one first.
pub record Polling : Type 0 where
  pub waiting_release : Bool
  pub failed : Bool
  pub reported : List KeyCode

-- What a round meets: whether the input is enabled, whether a callback is set, and the expander at
-- the scan and at the one that confirms it.
pub record Round : Type 0 where
  pub input_enabled : Bool
  pub callback : Bool
  pub first : Expander
  pub second : Expander

abbrev same_found : Found → Found → Bool
same_found none none = true
same_found (some j) (some k) = j == k
same_found none (some k) = false
same_found (some j) none = false

abbrev pub report : Bool → Option KeyCode → Polling → Polling
report true (some code) p = record p { reported = p.reported ++ (code ∷ []) }
report true none p = p
report false code p = p

abbrev confirm_press : Round → ℕ → Option Found → Polling → Polling
confirm_press r key none p = record p { failed = true }
confirm_press r key (some again) p =
    let pressed = report r.callback (char_to_key_code key) p in
    if same_found again (some key) then record pressed { waiting_release = true } else p

abbrev confirm_release : Option Found → Polling → Polling
confirm_release none p = record p { failed = true }
confirm_release (some none) p = record p { waiting_release = false }
confirm_release (some (some k)) p = p

abbrev pub on_scan : Round → Bool → Option Found → Polling → Polling
on_scan r waiting none p = record p { failed = true }
on_scan r false (some none) p = p
on_scan r false (some (some key)) p = confirm_press r key (scan_key r.second) p
on_scan r true (some none) p = confirm_release (scan_key r.second) p
on_scan r true (some (some key)) p = p

-- A round of the loop; after an exception the thread has ended.
unfoldable pub poll_round : Polling → Round → Polling
unfolding scan_key char_to_key_code
poll_round p r =
    if p.failed
    then p
    else if r.input_enabled
    then on_scan r p.waiting_release (scan_key r.first) p
    else p

unfoldable pub poll : Polling → List Round → Polling
unfolding poll_round
poll p [] = p
poll p (r ∷ rs) = poll (poll_round p r) rs
