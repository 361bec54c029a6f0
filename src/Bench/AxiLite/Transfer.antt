-- ===== src/Bench/AxiLite/Transfer.antt =====
-- The transfers of tb_axi_lite.cpp over rtl/top/register_iface.sv, against a memory of 64 words.
use fpga_network_processing.Base.{
  List, [], ap, ap₂, arith, false, get_or, if◌then◌else◌, length, ltb, refl, set, suc, sym, true,
  zero, ℕ, ◌%◌, ◌&&◌, ◌<◌, ◌==◌, ◌^◌, ◌∙◌, ◌∷◌, ◌≡◌,
}
use fpga_network_processing.RegisterIface
use fpga_network_processing.RegisterIface.{
  RegisterIface, Inputs, WState, w_idle, RState, r_idle, read_mux, WriteSide, ReadSide, write_block,
  read_block,
}
use fpga_network_processing.Bench.Clock.{pre, post, tick, drive}
use fpga_network_processing.Bench.AxiLite.{Bus, axi_write, axi_read, write_ports, read_ports}

-- A running bus with no transfer under way.
pub record IsIdle (s : Bus) : Type 0 where
  pub on : s.ports.rst_n ≡ true
  pub no_write : s.dut.write.wstate ≡ w_idle
  pub no_read : s.dut.read.rstate ≡ r_idle

-- The four edges of a write, on the write side and on the read side.
write_edges :
    (addr word : ℕ) (p : Inputs) (w : WriteSide)
    → p.rst_n ≡ true
    → w.wstate ≡ w_idle
    → let p1 = write_ports addr word p in
      let p2 = record p1 { s_axi_awvalid = false; s_axi_wvalid = false } in
      let w' = write_block p2 (write_block p2 (write_block p2 (write_block p1 w))) in
      (w'.wstate ≡ w_idle) × (w'.regs ≡ set w.regs (addr % 2 ^ 8) word)
unfolding write_block
write_edges addr word p w on idle = ground arith

-- The other side stands still.
no_read_edge :
    (p : Inputs) (regs : List ℕ) (r : ReadSide)
    → p.rst_n ≡ true
    → p.s_axi_arvalid ≡ false
    → r.rstate ≡ r_idle
    → (read_block p regs r).rstate ≡ r_idle
unfolding read_block
no_read_edge p regs r on kept idle = ground arith

no_write_edge :
    (p : Inputs) (w : WriteSide)
    → p.rst_n ≡ true
    → p.s_axi_awvalid ≡ false
    → p.s_axi_wvalid ≡ false
    → w.wstate ≡ w_idle
    → ((write_block p w).wstate ≡ w_idle) × ((write_block p w).regs ≡ w.regs)
unfolding write_block
no_write_edge p w on kept kept' idle = ground arith

-- The first edge of a read loads the word, and the second frees the read side.
read_edges :
    (addr : ℕ) (p : Inputs) (regs regs' : List ℕ) (r : ReadSide)
    → p.rst_n ≡ true
    → r.rstate ≡ r_idle
    → let p1 = read_ports addr p in
      let r' = read_block p1 regs' (read_block p1 regs r) in
      (r'.rstate ≡ r_idle) × (r'.s_axi_rdata ≡ read_mux p1 regs (addr % 2 ^ 8))
unfolding read_block
read_edges addr p regs regs' r on idle = ground arith

-- From an idle bus a write ends, with the bus idle and the word at the low 8 bits of the address;
-- a write past the 64 registers changes none of them.
pub axi_write_lem :
    (addr word : ℕ) (s : Bus)
    → IsIdle s
    → let s' = (axi_write addr word s).1 in
      IsIdle s'
      × (s'.dut.write.regs ≡ set s.dut.write.regs (addr % 2 ^ 8) word)
      × (s'.ports.counters ≡ s.ports.counters)
      × (s'.ports.out_of_range ≡ s.ports.out_of_range)
unfolding axi_write drive tick RegisterIface.posedge
axi_write_lem addr word s v =
    let p1 = write_ports addr word s.ports in
    let p2 = record p1 { s_axi_awvalid = false; s_axi_wvalid = false } in
    let w1 = write_block p1 s.dut.write in
    let w2 = write_block p2 w1 in
    let w3 = write_block p2 w2 in
    let r1 = read_block p1 s.dut.write.regs s.dut.read in
    let r2 = read_block p2 w1.regs r1 in
    let r3 = read_block p2 w2.regs r2 in
    let e1 = no_read_edge p1 s.dut.write.regs s.dut.read v.on refl v.no_read in
    let e2 = no_read_edge p2 w1.regs r1 v.on refl e1 in
    let e3 = no_read_edge p2 w2.regs r2 v.on refl e2 in
    let e4 = no_read_edge p2 w3.regs r3 v.on refl e3 in
    let (idle, stored) = write_edges addr word s.ports s.dut.write v.on v.no_write in
    (record { on = v.on; no_write = idle; no_read = e4 }, stored, refl, refl)

-- From an idle bus a read ends, with the bus idle and the registers as they were, and gives what
-- `read_mux` selects by the low 8 bits of the address.
pub axi_read_lem :
    (addr : ℕ) (s : Bus)
    → IsIdle s
    → let r = axi_read addr s in
      IsIdle r.1
      × (r.1.dut.write.regs ≡ s.dut.write.regs)
      × (r.0 ≡ read_mux s.ports s.dut.write.regs (addr % 2 ^ 8))
unfolding axi_read drive tick pre post RegisterIface.posedge read_mux
axi_read_lem addr s v =
    let p1 = read_ports addr s.ports in
    let p2 = record p1 { s_axi_arvalid = false } in
    let w0 = s.dut.write in
    let w1 = write_block p1 w0 in
    let w2 = write_block p1 w1 in
    let (i1, k1) = no_write_edge p1 w0 v.on refl refl v.no_write in
    let (i2, k2) = no_write_edge p1 w1 v.on refl refl i1 in
    let (i3, k3) = no_write_edge p2 w2 v.on refl refl i2 in
    let r2 = read_block p1 w1.regs (read_block p1 w0.regs s.dut.read) in
    let (free, got) = read_edges addr s.ports w0.regs w1.regs s.dut.read v.on v.no_read in
    (
      record { on = v.on; no_write = i3; no_read = no_read_edge p2 w2.regs r2 v.on refl free },
      k3 ∙ k2 ∙ k1,
      got,
    )

get_or-set :
    (xs : List ℕ) (i j v d : ℕ)
    → get_or (set xs i v) j d ≡ (if i == j && ltb i (length xs) then v else get_or xs j d)
get_or-set [] i j v d = ground arith
get_or-set (x ∷ xs) zero zero v d = ground arith
get_or-set (x ∷ xs) zero (suc j) v d = ground arith
get_or-set (x ∷ xs) (suc i) zero v d = ground arith
get_or-set (x ∷ xs) (suc i) (suc j) v d = ground (arith, get_or-set xs i j v d)

-- What `read_mux` selects after one register has changed.
read_mux-set :
    (i : Inputs) (regs : List ℕ) (a b word : ℕ)
    → length regs ≡ 64
    → read_mux i (set regs a word) b ≡ (if a == b && ltb a 64 then word else read_mux i regs b)
unfolding read_mux
read_mux-set i regs a b word size = ground (arith, get_or-set regs a b word i.out_of_range)

-- A read after a write, at any two addresses of 8 bits, on an idle bus with 64 registers: the word
-- written, if it is the same address and one of the registers; what a read gave before the write,
-- otherwise. The addresses 0x50 .. 0x5F read counters and are no registers.
pub axi_read-axi_write :
    (a b word : ℕ) (s : Bus)
    → IsIdle s
    → a < 2 ^ 8
    → b < 2 ^ 8
    → length s.dut.write.regs ≡ 64
    → (axi_read b (axi_write a word s).1).0
      ≡ (if a == b && ltb a 64 then word else (axi_read b s).0)
unfolding axi_write read_mux tick RegisterIface.posedge drive
axi_read-axi_write a b word s v ha hb size =
    let s' = (axi_write a word s).1 in
    let (idle, stored, _, _) = axi_write_lem a word s v in
    let (la, lb) : (a % 2 ^ 8 ≡ a) × (b % 2 ^ 8 ≡ b) = omega arith in
    (axi_read_lem b s' idle).2
    ∙ ap₂ (read_mux s.ports) (stored ∙ ap (λ k. set s.dut.write.regs k word) la) lb
    ∙ read_mux-set s.ports s.dut.write.regs a b word size
    ∙ ap (λ t. if a == b && ltb a 64 then word else t)
        (sym ((axi_read_lem b s v).2 ∙ ap (read_mux s.ports s.dut.write.regs) lb))
