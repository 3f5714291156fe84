-- ===== src/Resolver/Ends.antt =====
-- Resolve returns, because its loop looks at the clock.
use fuelflux.Base.{
  ℕ, zero, suc, ◌+◌, ◌≤◌, ◌<◌, ◌≡◌, refl, arith, true, leb, ltb, ◌==◌, [], Option, none, some, Text,
  Bool-cases, inl, inr,
}
use fuelflux.Resolver.{
  HostAnswer, Select, interrupted, select_failed, selected, Round, Net, Resolver, overall_timeout,
  wait_loop, after_select, after_loop, ask, ask_cache, resolve, is_backend_hostname, is_initialized,
  CacheEntry, answered, answer_of,
}

-- There is a result.
abbrev pub Ends : {A : Type 0} → Option A → Type 0
Ends {A} o = (a : A) × (o ≡ some a)

-- A round ends the loop, or hands on to the next one.
after_select-Ends :
    (s : Select) (callback : Option HostAnswer)
    (next : Option HostAnswer → Option (Option HostAnswer))
    → ((a : Option HostAnswer) → Ends (next a))
    → Ends (after_select s callback next)
after_select-Ends interrupted callback next h = h none
after_select-Ends select_failed callback next h = (none, refl)
after_select-Ends selected callback next h = h callback

wait_loop-Ends :
    (rounds : ℕ → Round) (fuel n k : ℕ) (a : Option HostAnswer)
    → k < fuel
    → overall_timeout ≤ (rounds (n + k)).elapsed
    → Ends (wait_loop rounds fuel n a)
unfolding wait_loop
wait_loop-Ends rounds fuel n k (some a) h late = (some a, refl)
wait_loop-Ends rounds zero n k none h late = absurd (omega (arith, h))
wait_loop-Ends rounds (suc fuel) n zero none h late =
    let done : leb overall_timeout (rounds n).elapsed ≡ true = ground (arith, late) in
    rw done (none, refl)
wait_loop-Ends rounds (suc fuel) n (suc k) none h late =
    elim (Bool-cases (leb overall_timeout (rounds n).elapsed)) [
      | inl over ↦ rw over (none, refl)
      | inr still ↦ elim (Bool-cases ((rounds n).descriptors == 0)) [
        | inl idle ↦ rw (still, idle) (none, refl)
        | inr busy ↦
            let e : n + suc k ≡ suc n + k = omega arith in
            rw (still, busy)
              (after_select-Ends (rounds n).select (rounds n).callback
                (wait_loop rounds fuel (suc n))
                (λ a. wait_loop-Ends rounds fuel (suc n) k a (omega (arith, h)) (rw (← e) late)))
      ]
    ]

module _ (net : Net) (fuel k : ℕ) (enough : k < fuel)
    (late : (q : ℕ) (host interface : Text)
      → overall_timeout ≤ ((net.query q host interface).rounds k).elapsed) where
  after_loop-Ends :
      (r : Resolver) (host : Text) (o : Option (Option HostAnswer))
      → Ends o
      → Ends (after_loop net r host o)
  after_loop-Ends r host o (a, h) = rw h (answered net r host (answer_of a), refl)

  ask-Ends : (r : Resolver) (host interface : Text) → Ends (ask net fuel r host interface)
  unfolding ask
  ask-Ends r host interface =
      let q = net.query r.queries host interface in
      let first : 0 + k ≡ k = omega arith in
      elim (Bool-cases q.has_channel) [
        | inl there ↦ rw there (
            after_loop-Ends (record r { queries = r.queries + 1 }) host
              (wait_loop q.rounds fuel 0 q.at_once)
              (wait_loop-Ends q.rounds fuel 0 k q.at_once enough
                (rw first (late r.queries host interface))))
        | inr missing ↦ rw missing ((r, []), refl)
      ]

  ask_cache-Ends :
      (r : Resolver) (host interface : Text) (e : Option CacheEntry)
      → Ends (ask_cache net fuel r host interface e)
  ask_cache-Ends r host interface none = ask-Ends r host interface
  ask_cache-Ends r host interface (some e) =
      elim (Bool-cases (ltb (net.clock r.clock_reads) e.expires_at)) [
        | inl valid ↦ rw valid ((record r { clock_reads = r.clock_reads + 1 }, e.ip), refl)
        | inr over ↦
            rw over (ask-Ends (record r { clock_reads = r.clock_reads + 1 }) host interface)
      ]

  -- Resolve returns, whatever c-ares and select() do, in fewer rounds of its loop than the fuel, if
  -- the clock has reached the overall timeout by some earlier round of each query.
  pub resolve-Ends :
      (r : Resolver) (host interface : Text) → Ends (resolve net fuel r host interface)
  unfolding resolve
  resolve-Ends r host interface = elim (Bool-cases (is_initialized r.state)) [
    | inr off ↦ rw off ((r, []), refl)
    | inl on ↦ elim (Bool-cases (net.is_address host)) [
      | inl literal ↦ rw (on, literal) ((r, host), refl)
      | inr name ↦ elim (Bool-cases (is_backend_hostname r host)) [
        | inl own ↦ rw (on, name, own) (ask_cache-Ends r host interface r.backend_api_cache_entry)
        | inr other ↦ rw (on, name, other) (ask-Ends r host interface)
      ]
    ]
  ]
