-- ===== src/Resolver/Cache.antt =====
-- The cached address of the portal's host.
use fuelflux.Base.{
  ℕ, ◌+◌, ◌≡◌, refl, ◌∙◌, sym, arith, Bool, true, false, ltb, List, [], ◌∷◌, All, Option, none,
  some, Text, text_eq, is_empty, not, if◌then◌else◌, subst, ap, text_eq_iff,
}
use fuelflux.Resolver.{
  HostAnswer, Net, Resolver, CacheEntry, initialized, wait_loop, answer_of, answered, after_loop,
  ask, ask_cache, resolve, is_backend_hostname, cache_ttl, remembered,
}

-- The resolver after a call, if it returned.
abbrev pub resolver_of : Resolver → Option (Resolver × Text) → Resolver
resolver_of r none = r
resolver_of r (some (r', ip)) = r'

-- The cache entry, the library and the portal's host are the same.
record SameCache (r s : Resolver) : Type 0 where
  state : s.state ≡ r.state
  hostname : s.cached_hostname ≡ r.cached_hostname
  entry : s.backend_api_cache_entry ≡ r.backend_api_cache_entry

module _ (net : Net) where
  -- Calls with these hosts and interfaces.
  pub resolve_all : ℕ → Resolver → List (Text × Text) → Resolver
  resolve_all fuel r [] = r
  resolve_all fuel r (k ∷ ks) = resolve_all fuel (resolver_of r (resolve net fuel r k.0 k.1)) ks

  ask-SameCache :
      (fuel : ℕ) (r : Resolver) (host interface : Text)
      → text_eq host r.cached_hostname ≡ false
      → SameCache r (resolver_of r (ask net fuel r host interface))
  unfolding ask
  ask-SameCache fuel r host interface other =
      of_channel (net.query r.queries host interface).has_channel (
        wait_loop (net.query r.queries host interface).rounds fuel 0
          (net.query r.queries host interface).at_once)
    where
      of_answer :
          (o : Option Text)
          → SameCache r (answered net (record r { queries = r.queries + 1 }) host o).0
      of_answer none = ground arith
      of_answer (some ip) = ground (arith, other)

      of_channel :
          (b : Bool) (o : Option (Option HostAnswer))
          → SameCache r (
              resolver_of r (
                if not b
                then some (r, [])
                else after_loop net (record r { queries = r.queries + 1 }) host o))
      of_channel false o = ground arith
      of_channel true none = ground arith
      of_channel true (some a) = of_answer (answer_of a)

  resolve-SameCache :
      (fuel : ℕ) (r : Resolver) (host interface : Text)
      → text_eq host r.cached_hostname ≡ false
      → SameCache r (resolver_of r (resolve net fuel r host interface))
  unfolding resolve
  resolve-SameCache fuel r host interface other =
      ground (arith, other, ask-SameCache fuel r host interface other)

  resolve_all-SameCache :
      (fuel : ℕ) (r : Resolver) (host : Text) (ks : List (Text × Text))
      → r.cached_hostname ≡ host
      → All (λ k. text_eq k.0 host ≡ false) ks
      → SameCache r (resolve_all fuel r ks)
  unfolding resolve_all
  resolve_all-SameCache fuel r host [] own h = ground arith
  resolve_all-SameCache fuel r host (k ∷ ks) own h =
      let s = resolver_of r (resolve net fuel r k.0 k.1) in
      let one = resolve-SameCache fuel r k.0 k.1 (rw own h.0) in
      ground (arith, one, resolve_all-SameCache fuel s host ks (one.hostname ∙ own) h.1)

  -- The resolver knows the portal's host, and has an address for it.
  record Knows (r : Resolver) (host : Text) (e : CacheEntry) : Type 0 where
    state : r.state ≡ initialized
    own : r.cached_hostname ≡ host
    entry : r.backend_api_cache_entry ≡ some e

  -- What the answer of c-ares leaves.
  ask-Knows :
      (fuel : ℕ) (r s : Resolver) (host interface ip : Text)
      → r.state ≡ initialized
      → r.cached_hostname ≡ host
      → is_empty host ≡ false
      → is_empty ip ≡ false
      → ask net fuel r host interface ≡ some (s, ip)
      → Knows s host (record { ip = ip; expires_at = net.clock r.clock_reads + cache_ttl })
  unfolding ask
  ask-Knows fuel r s host interface ip on own named given h =
      of_channel (net.query r.queries host interface).has_channel
        (wait_loop (net.query r.queries host interface).rounds fuel 0
          (net.query r.queries host interface).at_once)
        h
    where
      r' : Resolver
      r' = record r { queries = r.queries + 1 }

      pair_of : {x : Resolver × Text} → some x ≡ some (s, ip) → x ≡ (s, ip)
      pair_of k = ap (λ o. elim o as (λ y. Resolver × Text) [ none ↦ (s, ip) | some y ↦ y ]) k

      known :
          (t : Text)
          → is_backend_hostname r host ≡ true
          → Knows
              (remembered net r' host t)
              host
              (record { ip = t; expires_at = net.clock r.clock_reads + cache_ttl })
      known t backend = rw backend (record { state = on; own = own; entry = refl })

      of_answer :
          (o : Option Text)
          → some (answered net r' host o) ≡ some (s, ip)
          → Knows s host (record { ip = ip; expires_at = net.clock r.clock_reads + cache_ttl })
      of_answer none k = absurd (ground (arith, ap is_empty (ap (λ x. x.1) (pair_of k)), given))
      of_answer (some t) k =
          subst
            (λ x.
              Knows x.0 host
                (record { ip = x.1; expires_at = net.clock r.clock_reads + cache_ttl }))
            (pair_of k) (known t (rw (own, named, (text_eq_iff host host).1 refl) refl))

      of_channel :
          (b : Bool) (o : Option (Option HostAnswer))
          → (if not b then some (r, []) else after_loop net r' host o) ≡ some (s, ip)
          → Knows s host (record { ip = ip; expires_at = net.clock r.clock_reads + cache_ttl })
      of_channel false o k = absurd (ground (arith, ap is_empty (ap (λ x. x.1) (pair_of k)), given))
      of_channel true none k = cc
      of_channel true (some a) k = of_answer (answer_of a) k

  resolve-Knows :
      (fuel : ℕ) (r : Resolver) (host interface : Text) (e : CacheEntry)
      → net.is_address host ≡ false
      → is_empty host ≡ false
      → Knows r host e
      → resolve net fuel r host interface ≡ ask_cache net fuel r host interface (some e)
  unfolding resolve
  resolve-Knows fuel r host interface e name named h =
      rw (h.state, name, h.own, named, (text_eq_iff host host).1 refl, h.entry) refl

  resolve-unknown :
      (fuel : ℕ) (r : Resolver) (host interface : Text)
      → r.state ≡ initialized
      → r.cached_hostname ≡ host
      → is_empty host ≡ false
      → net.is_address host ≡ false
      → r.backend_api_cache_entry ≡ none
      → resolve net fuel r host interface ≡ ask net fuel r host interface
  unfolding resolve
  resolve-unknown fuel r host interface on own named name fresh =
      rw (on, name, own, named, (text_eq_iff host host).1 refl, fresh) refl

  -- An address of the portal's host that c-ares has given is given again, without asking c-ares,
  -- after any calls for other hosts, as long as 24 hours have not passed on the clock since it was
  -- stored; after that c-ares is asked again. The resolver had no entry before, and the address is
  -- not empty.
  pub resolve-cached :
      (fuel : ℕ) (r s : Resolver) (host interface ip : Text) (ks : List (Text × Text))
      → r.state ≡ initialized
      → r.cached_hostname ≡ host
      → is_empty host ≡ false
      → net.is_address host ≡ false
      → r.backend_api_cache_entry ≡ none
      → is_empty ip ≡ false
      → resolve net fuel r host interface ≡ some (s, ip)
      → All (λ k. text_eq k.0 host ≡ false) ks
      → let r' = resolve_all fuel s ks in
        let r'' = record r' { clock_reads = r'.clock_reads + 1 } in
        resolve net fuel r' host interface ≡ (
          if ltb (net.clock r'.clock_reads) (net.clock r.clock_reads + cache_ttl)
          then some (r'', ip)
          else ask net fuel r'' host interface)
  resolve-cached fuel r s host interface ip ks on own named name fresh given h others =
      let e : CacheEntry = record { ip = ip; expires_at = net.clock r.clock_reads + cache_ttl } in
      let asked : ask net fuel r host interface ≡ some (s, ip) =
        sym (resolve-unknown fuel r host interface on own named name fresh) ∙ h in
      let known = ask-Knows fuel r s host interface ip on own named given asked in
      let same = resolve_all-SameCache fuel s host ks known.own others in
      let r' = resolve_all fuel s ks in
      let there : Knows r' host e = record {
        state = same.state ∙ known.state;
        own = same.hostname ∙ known.own;
        entry = same.entry ∙ known.entry;
      } in
      resolve-Knows fuel r' host interface e name named there
