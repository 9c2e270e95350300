-- ===== src/Startup/Tests.antt =====
-- The start of the program on some configurations.
use mini_sfu.Base.{ℕ, ◌≡◌, refl, false, none, some, List, [], ◌∷◌, leb, arith}
use mini_sfu.Startup.{
  Config, name_plan_b, decoded, load, load_ports, is_too_narrow, parse, settings, starts,
  configured, new_web_rtc_transport_config, ice_ports, start,
}
use mini_sfu.Startup.Ports.{Verdict, start-Verdict}

abbrev with_ports : List ℕ → Config
with_ports ports = record {
  ice_lite = false;
  nat1_to1_ips = 7 ∷ [];
  ice_port_range = ports;
  sdp_semantics = name_plan_b;
}

upwards :
    start leb (decoded (with_ports (5000 ∷ 5200 ∷ []))) false
    ≡ some (starts (settings (with_ports (5000 ∷ 5200 ∷ [])) (some (5000, 5200))))
unfolding start parse load load_ports is_too_narrow configured new_web_rtc_transport_config
    ice_ports
upwards = refl

-- 5000 and 4000: the difference of 16 bits is 64536.
downwards : start leb (decoded (with_ports (5000 ∷ 4000 ∷ []))) false ≡ none
unfolding start parse load load_ports is_too_narrow configured new_web_rtc_transport_config
    ice_ports
downwards = refl

single : load (decoded (with_ports (5000 ∷ []))) ≡ none
unfolding load load_ports is_too_narrow
single = refl

start-Verdict_example :
    Verdict
      (with_ports (5000 ∷ 4000 ∷ []))
      (start leb (decoded (with_ports (5000 ∷ 4000 ∷ []))) false)
start-Verdict_example =
    start-Verdict leb (with_ports (5000 ∷ 4000 ∷ [])) (λ a b. refl) (omega arith, (omega arith, tt))
