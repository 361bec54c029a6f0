-- ===== src/FlowTable/Tests.antt =====
-- flow_table.sv on a flow.
use fpga_network_processing.Base.{arith, false, not, refl, true, ◌%◌, ◌+◌, ◌^◌, ◌≡◌}
use fpga_network_processing.FlowTable.{
  FlowKey, FlowTable, Row, Inputs, flow_hit, update, timeout_cycles, no_flow, posedge, flow_key,
  update_en, set_idx, tuple_words, accumulate,
}
use fpga_network_processing.FlowTable.Found.{packets}
use fpga_network_processing.FlowTable.Hash.{home}
use fpga_network_processing.FlowTable.Lookup.{update_lem}
use fpga_network_processing.FlowTable.Placed.{AllPlaced, posedge-AllPlaced}
use fpga_network_processing.FlowTable
use fpga_network_processing.Stage
use fpga_network_processing.Pipeline.{no_meta}
use fpga_network_processing.Pipeline.Blank.{blank, beat, no_past}

abbrev dns : FlowKey
dns = record {
  src_ip = 0xc0a80001;
  dst_ip = 0xc0a80002;
  protocol = 17;
  src_port = 1234;
  dst_port = 53;
}

abbrev empty_row : Row
empty_row = record { e0 = no_flow; e1 = no_flow; lru = false }

-- Still there after 99999 cycles.
update_lem_example :
    let r = update 7 dns 45 empty_row in
    (flow_hit ((7 + 99999) % 2 ^ 32) dns r.e0 r.e1 ≡ true) × (packets dns r ≡ 1)
unfolding FlowTable.hit FlowTable.flow_hit
update_lem_example = update_lem 7 99999 dns 45 empty_row (λ k. refl) (omega arith) (omega arith)

abbrev last_beat : Inputs
last_beat = record {
  axis = record { rst_n = true; s_data = beat 0 255 true; s_tvalid = true; m_tready = true };
  s_meta = no_meta;
  past = no_past;
}

-- The hash of `dns` is 0x8f402984, of which the six slices are folded.
dns_set : set_idx no_past dns ≡ 61
unfolding set_idx tuple_words accumulate
dns_set = refl

posedge-AllPlaced_example :
    let t' = posedge last_beat blank.flow_inst in
    let k = flow_key last_beat.s_meta in
    let s = home no_past k in
    AllPlaced no_past t' × (not (flow_hit t'.now k (t'.way0 s) (t'.way1 s)) ≡ false)
unfolding FlowTable.hit update_en Stage.s_tready
posedge-AllPlaced_example =
    posedge-AllPlaced no_past last_beat blank.flow_inst refl (omega arith)
      (record { unique = λ s k. refl; placed0 = λ s k. refl; placed1 = λ s k. refl })
