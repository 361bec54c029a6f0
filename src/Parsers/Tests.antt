-- ===== src/Parsers/Tests.antt =====
-- A packet of the generator in the parsers.
use fpga_network_processing.Base.{[], arith, refl, ℕ, ◌∷◌}
use fpga_network_processing.Generator.Header.{Mac}
use fpga_network_processing.Generator.Build.{make_udp_packet}
use fpga_network_processing.Ipv4Parser.Number.{number}
use fpga_network_processing.Pipeline.{no_meta}
use fpga_network_processing.Parsers.Chain.{Says, parse_all, parse_all_udp}

abbrev mac : ℕ → Mac
mac n = record { b0 = 2; b1 = 0; b2 = 0; b3 = 0; b4 = 0; b5 = n }

-- A DNS query.
parse_all_udp_example : Says 0xc0a80001 0xc0a80002 1234 53 (
    parse_all
      (number
        (make_udp_packet
          (record { ip_id_counter = 0 })
          (mac 1)
          (mac 2)
          0xc0a80001
          0xc0a80002
          1234
          53
          (68 ∷ 78 ∷ 83 ∷ [])).0)
      no_meta)
parse_all_udp_example =
    parse_all_udp (record { ip_id_counter = 0 }) (mac 1) (mac 2) 0xc0a80001 0xc0a80002 1234 53
      (68 ∷ 78 ∷ 83 ∷ []) no_meta (omega arith) (omega arith) (omega arith) (omega arith)
      (omega arith) (omega arith) (omega arith) (omega arith) refl
