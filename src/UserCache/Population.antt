-- ===== src/UserCache/Population.antt =====
-- Reads after writes, and what survives the change of tables.
use fuelflux.Numbers.{round_double, round_volume, negate}
use fuelflux.Base.{
  ℕ, zero, suc, negsuc, ltb_ℤ, leb, ◌∙◌, sym, ap, ◌+◌, ◌-◌, pos_part, neg_part, ◌≡◌, refl, Bool,
  true, false, if◌then◌else◌, List, [], ◌∷◌, some, text_eq, text_eq_iff, pos, arith, Bool-cases,
  Option-cases, inl, inr,
}
use fuelflux.Types.{UserId, Volume}
use fuelflux.UserCache.{
  UserCacheEntry, UserCache, active, standby, find_user, replace_user, update_entry,
  deduct_allowance, commit_population, deducted, write_standby, write_tables, write_deducted,
  end_transaction, ran,
}

-- INSERT OR REPLACE as a map.
pub find_user-replace_user :
    (uid : UserId) (e : UserCacheEntry) (es : List UserCacheEntry)
    → find_user uid (replace_user e es) ≡ (if text_eq e.uid uid then some e else find_user uid es)
unfolding find_user replace_user
find_user-replace_user uid e [] = refl
find_user-replace_user uid e (f ∷ fs) = ground (
  arith,
  text_eq_iff f.uid e.uid,
  text_eq_iff f.uid uid,
  text_eq_iff e.uid uid,
  find_user-replace_user uid e fs,
)

find_user-replace_user_self :
    (e : UserCacheEntry) (es : List UserCacheEntry) → find_user e.uid (replace_user e es) ≡ some e
find_user-replace_user_self e es =
    rw (find_user-replace_user e.uid e es, (text_eq_iff e.uid e.uid).1 refl)

-- A write that succeeds while a population is in progress reaches both tables.
write_tables-both :
    (c : UserCache) (e : UserCacheEntry)
    → c.in_progress ≡ true
    → (write_tables c e).1 ≡ true
    → ((active (write_tables c e).0).users ≡ replace_user e (active c).users)
      × ((standby (write_tables c e).0).users ≡ replace_user e (standby c).users)
unfolding write_tables write_standby
write_tables-both c e p u = ground arith

-- A write outside a population reaches the active table alone.
write_tables-active :
    (c : UserCache) (e : UserCacheEntry)
    → c.in_progress ≡ false
    → (write_tables c e).1 ≡ true
    → ((active (write_tables c e).0).users ≡ replace_user e (active c).users)
      × (standby (write_tables c e).0 ≡ standby c)
unfolding write_tables write_standby
write_tables-active c e p u = ground arith

write_tables-users :
    (c : UserCache) (e : UserCacheEntry)
    → (write_tables c e).1 ≡ true
    → (active (write_tables c e).0).users ≡ replace_user e (active c).users
write_tables-users c e u = elim (Bool-cases c.in_progress) [
  | inl p ↦ (write_tables-both c e p u).0
  | inr p ↦ (write_tables-active c e p u).0
]

-- Committing shows the standby table.
commit-active :
    (c : UserCache) → (commit_population c).1 ≡ true → active (commit_population c).0 ≡ standby c
unfolding commit_population
commit-active c k = ground arith

update_entry-write_tables :
    (c : UserCache) (e : UserCacheEntry)
    → (update_entry c e.uid e.allowance e.role_id).1 ≡ true
    → update_entry c e.uid e.allowance e.role_id ≡ write_tables c e
unfolding update_entry
update_entry-write_tables c e u = ground arith

-- A card whose entry is updated while a population is in progress is found, with that entry, after
-- the commit has made the standby tables the active ones, if both operations succeed.
pub update-commit :
    (c : UserCache) (e : UserCacheEntry)
    → c.in_progress ≡ true
    → (update_entry c e.uid e.allowance e.role_id).1 ≡ true
    → (commit_population (update_entry c e.uid e.allowance e.role_id).0).1 ≡ true
    → find_user e.uid
        (active (commit_population (update_entry c e.uid e.allowance e.role_id).0).0).users
      ≡ some e
update-commit c e p u k =
    let w = update_entry-write_tables c e u in
    rw (
      commit-active _ k,
      w,
      (write_tables-both c e p (rw (← w) u)).1,
      find_user-replace_user_self e (standby c).users,
    )

-- After an update that succeeds the active table holds the new entry for that card, in and outside
-- a population, and the entries of the other cards are as they were.
pub find_user-update_entry :
    (c : UserCache) (e : UserCacheEntry) (uid : UserId)
    → (update_entry c e.uid e.allowance e.role_id).1 ≡ true
    → find_user uid (active (update_entry c e.uid e.allowance e.role_id).0).users
      ≡ (if text_eq e.uid uid then some e else find_user uid (active c).users)
find_user-update_entry c e uid u =
    let w = update_entry-write_tables c e u in
    rw (w, write_tables-users c e (rw (← w) u), find_user-replace_user uid e (active c).users)

end_transaction-done :
    (c : UserCache) (r : UserCache × Bool)
    → (end_transaction c r).1 ≡ true
    → (r.1 ≡ true) × (active (end_transaction c r).0 ≡ active r.0)
unfolding end_transaction
end_transaction-done c (d, true) h = (refl, refl)
end_transaction-done c (d, false) h = ground arith

write_deducted-users :
    (c : UserCache) (e : UserCacheEntry)
    → (write_deducted c e).1 ≡ true
    → (active (write_deducted c e).0).users ≡ replace_user e (active c).users
unfolding write_deducted
write_deducted-users c e h = ground (
  arith,
  write_tables-users c e,
  end_transaction-done (ran c) (write_tables (ran c) e),
  write_tables-users (ran c) e,
)

deduct_allowance-users :
    (c : UserCache) (uid : UserId) (amount : Volume)
    → (deduct_allowance c uid amount).1 ≡ true
    → (e : UserCacheEntry) × (find_user uid (active c).users ≡ some e)
      × ((active (deduct_allowance c uid amount).0).users
          ≡ replace_user (record e { allowance = deducted e.allowance amount }) (active c).users)
unfolding deduct_allowance
deduct_allowance-users c uid amount h = elim (Option-cases (find_user uid (active c).users)) [
  | inl missing ↦ absurd (ground (arith, missing))
  | inr (e, found) ↦ (
    e,
    found,
    ground (
      arith,
      found,
      write_deducted-users (ran c) (record e { allowance = deducted e.allowance amount }),
    ),
  )
]

find_user-uid :
    (uid : UserId) (es : List UserCacheEntry) (e : UserCacheEntry)
    → find_user uid es ≡ some e
    → e.uid ≡ uid
unfolding find_user
find_user-uid uid [] e h = cc
find_user-uid uid (f ∷ fs) e h = ground (arith, text_eq_iff f.uid uid, find_user-uid uid fs e)

-- The double nearest to what is left, down to nothing.
abbrev pub remaining : Volume → Volume → Volume
remaining current amount =
    pos (round_double ((pos_part current + neg_part amount) - (pos_part amount + neg_part current)))

round_double-zero : round_double 0 ≡ 0
unfolding round_double
round_double-zero = refl

positive_part : (k : ℕ) → (if ltb_ℤ (pos 0) (negate k) then negate k else pos 0) ≡ pos 0
positive_part zero = refl
positive_part (suc k) = ground arith

not_less : (k : ℕ) → (if ltb_ℤ (pos 0) (pos k) then pos k else pos 0) ≡ pos k
not_less k = ground arith

rounded :
    (m n : ℕ)
    → let rest = round_volume (if leb n m then pos (m - n) else negsuc (n - m - 1)) in
      (if ltb_ℤ (pos 0) rest then rest else pos 0) ≡ pos (round_double (m - n))
unfolding round_volume
rounded m n = elim (Bool-cases (leb n m)) [
  | inl more ↦ rw more (not_less (round_double (m - n)))
  | inr less ↦
      let none_left : m - n ≡ 0 = ground (arith, less) in
      rw (less, none_left)
        (positive_part (round_double (suc (n - m - 1))) ∙ sym (ap pos round_double-zero))
]

deducted-remaining : (current amount : Volume) → deducted current amount ≡ remaining current amount
deducted-remaining current amount =
    rounded (pos_part current + neg_part amount) (pos_part amount + neg_part current)

-- A deduction that succeeds found the card and leaves it the double nearest to its allowance less
-- the amount, or nothing where that is not positive; its role and every other card stay.
pub deduct_allowance_lem :
    (c : UserCache) (uid : UserId) (amount : Volume)
    → (deduct_allowance c uid amount).1 ≡ true
    → (e : UserCacheEntry) × (find_user uid (active c).users ≡ some e)
      × ((other : UserId)
          → find_user other (active (deduct_allowance c uid amount).0).users ≡ (
              if text_eq uid other
              then some (record e { allowance = remaining e.allowance amount })
              else find_user other (active c).users))
deduct_allowance_lem c uid amount h =
    let (e, found, users) = deduct_allowance-users c uid amount h in
    let e' : UserCacheEntry = record e { allowance = deducted e.allowance amount } in
    (
      e,
      found,
      λ other.
          rw
            (
              users,
              find_user-replace_user other e' (active c).users,
              find_user-uid uid _ e found,
              deducted-remaining e.allowance amount,
            )
            refl,
    )
