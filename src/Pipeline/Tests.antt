-- ===== src/Pipeline/Tests.antt =====
-- parser_pipeline.sv on a few beats.
use mathlib.Core.List.{map}
use Prim.{tt}
use fpga_network_processing.Base.{List, [], false, refl, true, ◌++◌, ◌∷◌, ◌≡◌}
use fpga_network_processing.Pipeline.{Inputs}
use fpga_network_processing.Pipeline.Blank.{blank, give}
use fpga_network_processing.Pipeline.Tame.{IsTame}
use fpga_network_processing.Pipeline.Balance.{contents}
use fpga_network_processing.Pipeline.Order.{after, taken, left, beats_in_order}
use fpga_network_processing.Pipeline.Shift.{line, offered, eight_edges}

blank-IsTame : IsTame blank
blank-IsTame = record { paired = refl; mild = λ h. refl }

abbrev few : List Inputs
few = give 1 false false ∷ give 2 true true ∷ []

beats_in_order_example :
    contents blank ++ taken few blank ≡ left few blank ++ contents (after few blank)
beats_in_order_example = beats_in_order few blank blank-IsTame (refl, (refl, tt))

abbrev eight : List Inputs
eight =
    give 1 false true
    ∷ give 2 false true
    ∷ give 3 false true
    ∷ give 4 false true
    ∷ give 5 false true
    ∷ give 6 false true
    ∷ give 7 false true
    ∷ give 8 true true
    ∷ []

eight_edges_example : line (after eight blank) ≡ map offered eight
eight_edges_example =
    eight_edges eight blank blank-IsTame
      (
        record { on = refl; wanted = refl },
        (
          record { on = refl; wanted = refl },
          (
            record { on = refl; wanted = refl },
            (
              record { on = refl; wanted = refl },
              (
                record { on = refl; wanted = refl },
                (
                  record { on = refl; wanted = refl },
                  (record { on = refl; wanted = refl }, (record { on = refl; wanted = refl }, tt)),
                ),
              ),
            ),
          ),
        ),
      )
      refl
