-- ===== src/Startup/Ports.antt =====
-- Which ranges of ports the program starts with.
use mini_sfu.Base.{
  ℕ, ◌+◌, ◌<◌, ◌≤◌, ◌≡◌, refl, Bool, true, false, ◌||◌, not, Option, none, some, List, [], ◌∷◌,
  ◌==◌, ltb, leb, sub16, length, All, Bool-cases, inl, inr, arith,
}
use mini_sfu.Startup.{
  SemanticsName, Config, decoded, load, load_ports, is_too_narrow, parse, ice_ports, settings,
  new_web_rtc_transport_config, Started, exits, starts, configured, start,
}

-- What becomes of a configuration that was decoded, by its ports.
pub data Verdict (conf : Config) : Option Started → Type 0 where
  no_range : conf.ice_port_range ≡ [] → Verdict conf (some (starts (settings conf none)))
  range :
      (a b : ℕ)
      → conf.ice_port_range ≡ a ∷ b ∷ []
      → a + 100 ≤ b
      → Verdict conf (some (starts (settings conf (some (a, b)))))
  narrow :
      (a b : ℕ) → conf.ice_port_range ≡ a ∷ b ∷ [] → a ≤ b → b < a + 100 → Verdict conf (some exits)
  -- a range that goes down, but by so much that the difference wraps to less than 100
  far_down :
      (a b : ℕ) → conf.ice_port_range ≡ a ∷ b ∷ [] → b + 65436 < a → Verdict conf (some exits)
  -- any other range that goes down passes the test, and the setting engine refuses it
  down : (a b : ℕ) → conf.ice_port_range ≡ a ∷ b ∷ [] → b < a → a ≤ b + 65436 → Verdict conf none
  one_port : (a : ℕ) → conf.ice_port_range ≡ a ∷ [] → Verdict conf none
  too_many : 2 < length conf.ice_port_range → Verdict conf (some exits)

or-right : (b : Bool) → (b || true) ≡ true
or-right true = refl
or-right false = refl

module _ (takes : ℕ → ℕ → Bool) (orders : (a b : ℕ) → takes a b ≡ leb a b) (lite : Bool)
    (ips : List ℕ) (name : SemanticsName) where
  abbrev conf_of : List ℕ → Config
  conf_of ports = record {
    ice_lite = lite;
    nat1_to1_ips = ips;
    ice_port_range = ports;
    sdp_semantics = name;
  }

  wide_ports :
      (a b : ℕ)
      → a < 65536
      → b < 65536
      → ltb (sub16 b a) 100 ≡ false
      → Verdict (conf_of (a ∷ b ∷ [])) (start takes (decoded (conf_of (a ∷ b ∷ []))) false)
  unfolding start parse load load_ports is_too_narrow configured new_web_rtc_transport_config
      ice_ports
  wide_ports a b a_fits b_fits wide = elim (Bool-cases (leb a b)) [
    | inl up ↦
        let high : (b == 0) ≡ false = ground (arith, wide, up) in
        rw
          (
            start,
            parse,
            wide,
            configured,
            new_web_rtc_transport_config,
            high,
            or-right (not (a == 0)),
            orders a b,
            up,
          )
          (range a b refl (ground (arith, wide, up, a_fits, b_fits)))
    | inr going ↦
        let high : (a == 0) ≡ false = ground (arith, going) in
        rw (start, parse, wide, configured, new_web_rtc_transport_config, high, orders a b, going)
          (down a b refl (ground (arith, going)) (ground (arith, wide, going, a_fits, b_fits)))
  ]

  narrow_ports :
      (a b : ℕ)
      → a < 65536
      → b < 65536
      → ltb (sub16 b a) 100 ≡ true
      → Verdict (conf_of (a ∷ b ∷ [])) (start takes (decoded (conf_of (a ∷ b ∷ []))) false)
  unfolding start parse load load_ports is_too_narrow
  narrow_ports a b a_fits b_fits close = elim (Bool-cases (leb a b)) [
    | inl up ↦
        rw (start, parse, close)
          (narrow a b refl (ground (arith, up)) (ground (arith, close, up, a_fits, b_fits)))
    | inr going ↦
        rw (start, parse, close) (far_down a b refl (ground (arith, close, going, a_fits, b_fits)))
  ]

  ports-Verdict :
      (ports : List ℕ)
      → All (λ p. p < 65536) ports
      → Verdict (conf_of ports) (start takes (decoded (conf_of ports)) false)
  unfolding start parse load load_ports is_too_narrow configured new_web_rtc_transport_config
      ice_ports
  ports-Verdict [] fit = no_range refl
  ports-Verdict (a ∷ []) fit = one_port a refl
  ports-Verdict (a ∷ b ∷ []) (a_fits, (b_fits, end_)) = elim (Bool-cases (ltb (sub16 b a) 100)) [
    | inl close ↦ narrow_ports a b a_fits b_fits close
    | inr wide ↦ wide_ports a b a_fits b_fits wide
  ]
  ports-Verdict (a ∷ b ∷ c ∷ rest) fit =
      let many : 2 < length (a ∷ b ∷ c ∷ rest) = omega arith in
      let yes_ : ltb 2 (length (a ∷ b ∷ c ∷ rest)) ≡ true = ground arith in
      rw (start, parse, yes_) (too_many many)

-- What the program does with a configuration that was decoded, if the setting engine refuses exactly
-- the ranges that go down: without ports it starts with none set, and with a range of at least 100 ports
-- with that one; it exits on a narrower range and on more than two ports; on a single port it panics,
-- and so it does on a range that goes down, unless the difference wraps to less than 100.
pub start-Verdict :
    (takes : ℕ → ℕ → Bool) (conf : Config)
    → ((a b : ℕ) → takes a b ≡ leb a b)
    → All (λ p. p < 65536) conf.ice_port_range
    → Verdict conf (start takes (decoded conf) false)
start-Verdict takes conf orders fit =
    ports-Verdict takes orders conf.ice_lite conf.nat1_to1_ips conf.sdp_semantics
      conf.ice_port_range fit
