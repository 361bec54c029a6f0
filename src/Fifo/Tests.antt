-- ===== src/Fifo/Tests.antt =====
-- Runs of axis_fifo.sv that can be followed by hand, and the theorems at concrete inputs.
use fpga_network_processing.Base.{
  List, [], arith, false, leb, not, refl, true, ℕ, ◌++◌, ◌+◌, ◌==◌, ◌∷◌, ◌≡◌, ◌≤◌,
}
use fpga_network_processing.Fifo.{
  Fifo, Inputs, depth, ptr_diff, used, empty, full, almost_full, almost_empty, s_tready, m_data,
  posedge,
}
use fpga_network_processing.Fifo.Queue
use fpga_network_processing.Fifo.Invariant.{IsValid, reset-IsValid}
use fpga_network_processing.Fifo.Refine.{contents, posedge_refines}
use fpga_network_processing.Fifo.Trace.{run, after, taken, left, run_refines, taken-left, flags_lem}

-- Three entries round the end of the memory: addresses 14, 15 and 0.
abbrev wrapped : Fifo ℕ
wrapped = record { ram = λ a. a + 100; wr_ptr = 1; rd_ptr = 30; m_tvalid = true }

abbrev offer : ℕ → Inputs ℕ
offer x = record { rst_n = true; s_data = x; s_tvalid = true; m_tready = false }

abbrev want : Inputs ℕ
want = record { rst_n = true; s_data = 0; s_tvalid = false; m_tready = true }

abbrev restart : Inputs ℕ
restart = record { rst_n = false; s_data = 0; s_tvalid = true; m_tready = true }

abbrev script : List (Inputs ℕ)
script = offer 7 ∷ want ∷ want ∷ want ∷ want ∷ want ∷ []

wrapped-IsValid : IsValid wrapped
unfolding ptr_diff
wrapped-IsValid = record {
  wr_in = omega arith;
  rd_in = omega arith;
  fits = omega arith;
  shown = refl;
}

contents-wrapped : contents wrapped ≡ 114 ∷ 115 ∷ 100 ∷ []
unfolding ptr_diff
contents-wrapped = refl

left-script : left script wrapped ≡ 114 ∷ 115 ∷ 100 ∷ 7 ∷ []
unfolding left ptr_diff posedge m_data
left-script = refl

reset-IsValid_example : IsValid (posedge restart wrapped) × (ptr_diff (posedge restart wrapped) ≡ 0)
reset-IsValid_example = reset-IsValid restart wrapped refl

posedge_refines_example :
    contents (posedge (offer 7) wrapped) ≡ Queue.step (offer 7) (contents wrapped)
posedge_refines_example = posedge_refines (offer 7) wrapped-IsValid refl

run_refines_example : run script wrapped ≡ Queue.run script (contents wrapped)
run_refines_example =
    run_refines script (refl, (refl, (refl, (refl, (refl, (refl, tt)))))) wrapped-IsValid

taken-left_example :
    contents wrapped ++ taken script wrapped
    ≡ left script wrapped ++ contents (after script wrapped)
taken-left_example =
    taken-left script (refl, (refl, (refl, (refl, (refl, (refl, tt)))))) wrapped-IsValid

flags_lem_example :
    (used wrapped ≡ 3)
    × (3 ≤ depth)
    × (empty wrapped ≡ (◌==◌ 3 0))
    × (full wrapped ≡ (3 == depth))
    × (almost_full wrapped ≡ leb 14 3)
    × (almost_empty wrapped ≡ leb 3 2)
    × (wrapped.m_tvalid ≡ not (3 == 0))
    × (s_tready wrapped ≡ not (3 == depth))
unfolding ptr_diff
flags_lem_example = flags_lem wrapped-IsValid
