-- ===== src/RegisterIface.antt =====
-- rtl/top/register_iface.sv: the registers of the AXI-Lite slave, and `posedge` for the rising edge
-- of the clock, with its write block and its read block.
use fpga_network_processing.Base.{
  Bool, List, [], false, get_or, if◌then◌else◌, leb, ltb, replicate, set, true, ℕ, ◌%◌, ◌&&◌, ◌-◌,
  ◌/◌, ◌^◌, ◌∷◌,
}

pub data WState : Type 0 where
  w_idle : WState
  w_resp : WState

pub data RState : Type 0 where
  r_idle : RState
  r_data : RState

-- The state of the write block, and of the read block.
pub record WriteSide : Type 0 where
  pub regs : List ℕ
  pub wstate : WState
  pub s_axi_awready : Bool
  pub s_axi_wready : Bool
  pub s_axi_bvalid : Bool
  pub s_axi_bresp : ℕ
  pub waddr_q : ℕ

pub record ReadSide : Type 0 where
  pub rstate : RState
  pub s_axi_arready : Bool
  pub s_axi_rvalid : Bool
  pub s_axi_rdata : ℕ
  pub s_axi_rresp : ℕ

pub record RegisterIface : Type 0 where
  pub write : WriteSide
  pub read : ReadSide

pub record Counters : Type 0 where
  pub cnt_packets : ℕ
  pub cnt_bytes : ℕ
  pub cnt_ipv4 : ℕ
  pub cnt_tcp : ℕ
  pub cnt_udp : ℕ
  pub cnt_arp : ℕ
  pub cnt_drops : ℕ
  pub cnt_errors : ℕ

-- `out_of_range` is what a read of `regs` past its 64 words gives: the language leaves it open.
pub record Inputs : Type 0 where
  pub rst_n : Bool
  pub s_axi_awaddr : ℕ
  pub s_axi_awvalid : Bool
  pub s_axi_wdata : ℕ
  pub s_axi_wvalid : Bool
  pub s_axi_bready : Bool
  pub s_axi_araddr : ℕ
  pub s_axi_arvalid : Bool
  pub s_axi_rready : Bool
  pub counters : Counters
  pub out_of_range : ℕ

-- The low 32 bits of a counter of 48, and the high 16.
abbrev pub low_word : ℕ → ℕ
low_word cnt = cnt % 2 ^ 32

abbrev pub high_word : ℕ → ℕ
high_word cnt = cnt / 2 ^ 32

-- The cases of `read_mux` on the addresses 0x50 .. 0x5F.
abbrev pub counter_words : Counters → List ℕ
counter_words c =
    low_word c.cnt_packets
    ∷ high_word c.cnt_packets
    ∷ low_word c.cnt_bytes
    ∷ high_word c.cnt_bytes
    ∷ low_word c.cnt_ipv4
    ∷ high_word c.cnt_ipv4
    ∷ low_word c.cnt_tcp
    ∷ high_word c.cnt_tcp
    ∷ low_word c.cnt_udp
    ∷ high_word c.cnt_udp
    ∷ low_word c.cnt_arp
    ∷ high_word c.cnt_arp
    ∷ low_word c.cnt_drops
    ∷ high_word c.cnt_drops
    ∷ low_word c.cnt_errors
    ∷ high_word c.cnt_errors
    ∷ []

unfoldable pub read_mux : Inputs → List ℕ → ℕ → ℕ
read_mux i regs addr =
    if leb 0x50 addr && ltb addr 0x60
    then get_or (counter_words i.counters) (addr - 0x50) 0
    else get_or regs addr i.out_of_range

-- The write block without reset, after `awready`, `wready` and `bvalid` are cleared.
unfoldable pub write_step : Inputs → WriteSide → WState → WriteSide
write_step i w w_idle =
    if i.s_axi_awvalid
    then if i.s_axi_wvalid
      then record w {
        s_axi_awready = true;
        waddr_q = i.s_axi_awaddr % 2 ^ 8;
        s_axi_wready = true;
        regs = set w.regs (i.s_axi_awaddr % 2 ^ 8) i.s_axi_wdata;
        wstate = w_resp;
      }
      else record w { s_axi_awready = true; waddr_q = i.s_axi_awaddr % 2 ^ 8 }
    else if i.s_axi_wvalid
    then record w { s_axi_wready = true }
    else w
write_step i w w_resp = record w {
  s_axi_bvalid = true;
  s_axi_bresp = 0;
  wstate = if i.s_axi_bready then w_idle else w_resp;
}

unfoldable pub write_block : Inputs → WriteSide → WriteSide
unfolding write_step
write_block i w =
    if i.rst_n
    then write_step i
        (record w { s_axi_awready = false; s_axi_wready = false; s_axi_bvalid = false }) w.wstate
    else record {
      regs = replicate 64 0;
      wstate = w_idle;
      s_axi_awready = false;
      s_axi_wready = false;
      s_axi_bvalid = false;
      s_axi_bresp = 0;
      waddr_q = 0;
    }

unfoldable pub read_step : Inputs → List ℕ → ReadSide → RState → ReadSide
unfolding read_mux
read_step i regs r r_idle =
    if i.s_axi_arvalid
    then record r {
      s_axi_arready = true;
      s_axi_rdata = read_mux i regs (i.s_axi_araddr % 2 ^ 8);
      s_axi_rvalid = true;
      rstate = r_data;
    }
    else r
read_step i regs r r_data = record r {
  s_axi_rvalid = true;
  rstate = if i.s_axi_rready then r_idle else r_data;
}

unfoldable pub read_block : Inputs → List ℕ → ReadSide → ReadSide
unfolding read_step
read_block i regs r =
    if i.rst_n
    then read_step i regs (record r { s_axi_arready = false; s_axi_rvalid = false }) r.rstate
    else record {
      rstate = r_idle;
      s_axi_arready = false;
      s_axi_rvalid = false;
      s_axi_rdata = 0;
      s_axi_rresp = 0;
    }

-- Both blocks read the registers as they were before the edge.
unfoldable pub posedge : Inputs → RegisterIface → RegisterIface
unfolding write_block read_block
posedge i s = record { write = write_block i s.write; read = read_block i s.write.regs s.read }
