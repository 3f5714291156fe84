-- ===== src/Examples/Databases.antt =====
-- The theorems on the backlog, the user cache and the numbers, at concrete inputs.
use fuelflux.Base.{
  ℕ, ◌≡◌, refl, arith, true, false, Bool, [], ◌∷◌, some, pos, codes, if◌then◌else◌, ◌==◌, not,
  text_eq, ◌*◌,
}
use fuelflux.Types.{UserId}
use fuelflux.Base.{Text}
use fuelflux.Storage.{
  MessageStorage, StoredMessage, MessageMethod, refuel, intake, method_from_string,
}
use fuelflux.Storage.Laws.{IsValid}
use fuelflux.UserCache.{UserCacheEntry, find_user, active, deduct_allowance}
use fuelflux.UserCache.Population.{remaining, deduct_allowance_lem}
use fuelflux.Backlog.{Pair, send_payload, process_once, run_rounds, handle_failure}
use fuelflux.Backlog.Delivery.{Works, Fate, holding, process_once-Fate, run_rounds-drains}
use fuelflux.Backlog.Loss.{handle_failure_loses}
use fuelflux.Numbers.{is_digit, value, litre, stoi, stod, to_string}
use fuelflux.Numbers.RoundTrip.{stoi-to_string, stod-digits}
use fuelflux.Examples.{remote, ivan, waiting_row, backlogged, database, cache, litres}

abbrev report : ℕ → StoredMessage
report n = record { id = n; uid = ivan; method = refuel; payload = codes "{}" }

abbrev two_reports : MessageStorage
two_reports = backlogged (waiting_row 1 ∷ waiting_row 2 ∷ [])

sent : (k : MessageMethod) (t : Text) → (send_payload (remote true) k true t).1 ≡ true
unfolding send_payload
sent refuel t = refl
sent intake t = refl

process_once_example :
    (s' : MessageStorage) × (b' : Bool) × ((process_once
        (remote true)
        (holding (remote true) two_reports false)).0
      ≡ holding (remote true) s' b')
    × Fate two_reports s'
        (waiting_row 2 ∷ [])
        (report 1)
        true
        false
        (process_once (remote true) (holding (remote true) two_reports false)).1
    × IsValid s'
    × Works s'
unfolding method_from_string send_payload
process_once_example =
    process_once-Fate (remote true) two_reports false (waiting_row 1) (waiting_row 2 ∷ [])
      (report 1) (refl, λ n. refl) (ground arith) refl refl

run_rounds_example :
    (s' : MessageStorage) × (b' : Bool) × (run_rounds
        (remote true)
        2
        (holding (remote true) two_reports false)
      ≡ holding (remote true) s' b')
    × (s'.backlog ≡ [])
    × (s'.dead_messages ≡ [])
unfolding method_from_string
run_rounds_example =
    run_rounds-drains (remote true) (waiting_row 1 ∷ waiting_row 2 ∷ []) two_reports false
      (refl, λ n. refl) (ground arith) refl (refl, (refl, tt)) (λ b m. sent m.method m.payload)

handle_failure_example :
    let p : Pair Bool = record {
      store = record two_reports { db = record database { works = λ n. not (n == 0) } };
      remote = false;
    } in
    ((handle_failure (remote true) p (report 1)).0.store.backlog ≡ waiting_row 2 ∷ [])
    × ((handle_failure (remote true) p (report 1)).0.store.dead_messages ≡ [])
    × ((handle_failure (remote true) p (report 1)).1 ≡ true)
handle_failure_example =
    handle_failure_loses (remote true)
      (record {
        store = record two_reports { db = record database { works = λ n. not (n == 0) } };
        remote = false;
      })
      (report 1) refl refl refl refl

deduct_allowance_example :
    (e : UserCacheEntry) × (find_user ivan (active cache).users ≡ some e)
    × ((other : UserId)
        → find_user other (active (deduct_allowance cache ivan (litres 5)).0).users ≡ (
            if text_eq ivan other
            then some (record e { allowance = remaining e.allowance (litres 5) })
            else find_user other (active cache).users))
unfolding deduct_allowance find_user
deduct_allowance_example = deduct_allowance_lem cache ivan (litres 5) refl

stoi_example : stoi (to_string (pos 42)) ≡ some (pos 42)
stoi_example = stoi-to_string 42 (ground arith)

stod_example : stod (codes "42") ≡ some (pos (42 * litre))
unfolding is_digit value
stod_example = stod-digits (codes "42") (refl, (refl, tt)) refl (ground arith)
