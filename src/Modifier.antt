-- ===== src/Modifier.antt =====
-- rtl/classifiers/packet_modifier.sv at its default `DATA_WIDTH`, 512. A bit slice of the data that
-- is assigned to is a byte of the number.
pub mod Bytes
pub mod Tag
pub mod Parsed
mod Tests
use fpga_network_processing.Base.{
  Bool, List, [], if◌then◌else◌, leb, ltb, suc, true, zero, ℕ, ◌%◌, ◌&&◌, ◌*◌, ◌+◌, ◌-◌, ◌/◌, ◌^◌,
  ◌∷◌,
}
use fpga_network_processing.Fifo
use fpga_network_processing.Stage
use fpga_network_processing.Stage.{Stage}
use fpga_network_processing.Meta.{PacketMetadata}
use fpga_network_processing.Ipv4Parser.{Beat, byte_at, word16_be, ip_off}
use fpga_network_processing.MatchTable.{
  ModifierAction, ModifierData, mod_nop, mod_ttl_dec, mod_mac_swap, mod_mac_set, mod_ip_set,
  mod_vlan_push, mod_vlan_pop, mod_dscp_set, mod_ecn_set,
}

pub record Modifier : Type 0 where
  pub prev_tlast : Bool
  pub stage : Stage Beat

pub record Inputs : Type 0 where
  pub axis : Fifo.Inputs Beat
  pub s_meta : PacketMetadata
  pub s_mod_action : ModifierAction
  pub s_mod_data : ModifierData

-- `d[i*8 +: 8] = v`
unfoldable pub set_byte : ℕ → ℕ → ℕ → ℕ
set_byte d i v = d / 2 ^ (i * 8 + 8) * 2 ^ (i * 8 + 8) + v % 2 ^ 8 * 2 ^ (i * 8) + d % 2 ^ (i * 8)

-- `k[i] = b`
unfoldable pub set_bit : ℕ → ℕ → ℕ → ℕ
set_bit k i b = k / 2 ^ (i + 1) * 2 ^ (i + 1) + b % 2 * 2 ^ i + k % 2 ^ i

abbrev pub keep_w : ℕ
keep_w = 64

-- The bytes from `i` on.
unfoldable pub set_bytes : ℕ → ℕ → List ℕ → ℕ
unfolding set_byte
set_bytes d i [] = d
set_bytes d i (b ∷ bs) = set_bytes (set_byte d i b) (i + 1) bs

unfoldable pub bytes_from : ℕ → ℕ → ℕ → List ℕ
unfolding byte_at
bytes_from zero d i = []
bytes_from (suc left) d i = byte_at d i ∷ bytes_from left d (i + 1)

-- The bytes of a number of `n` bytes, the high one first.
unfoldable pub big_endian : ℕ → ℕ → List ℕ
big_endian zero v = []
big_endian (suc n) v = v / 2 ^ (n * 8) % 2 ^ 8 ∷ big_endian n v

-- The second of the two writes to byte `off + 10` stands.
unfoldable pub ttl_dec : ℕ → ℕ → ℕ
unfolding word16_be byte_at set_byte
ttl_dec off s =
    let csum = word16_be s (off + 10) in
    let d = set_byte s (off + 8) ((byte_at s (off + 8) + 2 ^ 8 - 1) % 2 ^ 8) in
    set_byte (set_byte d (off + 10) ((csum / 2 ^ 8 + 1) % 2 ^ 8)) (off + 10) (csum % 2 ^ 8)

unfoldable pub mac_swap : ℕ → ℕ
unfolding set_bytes bytes_from
mac_swap s = set_bytes (set_bytes s 0 (bytes_from 6 s 6)) 6 (bytes_from 6 s 0)

unfoldable pub mac_set : ModifierData → ℕ → ℕ
unfolding set_bytes big_endian
mac_set m s = set_bytes (set_bytes s 0 (big_endian 6 m.new_dst_mac)) 6 (big_endian 6 m.new_src_mac)

unfoldable pub ip_set : ModifierData → ℕ → ℕ → ℕ
unfolding set_bytes big_endian
ip_set m off s =
    set_bytes (set_bytes s (off + 12) (big_endian 4 m.new_src_ip)) (off + 16)
      (big_endian 4 m.new_dst_ip)

-- The loops of `MOD_VLAN_PUSH` over the bytes and the bits from 63 down to 12.
unfoldable pub push_data : ℕ → ℕ → ℕ → ℕ
unfolding set_byte byte_at
push_data zero s d = d
push_data (suc left) s d =
    let i = left + 12 in push_data left s (set_byte d i (if leb 16 i then byte_at s (i - 4) else 0))

unfoldable pub push_keep : ℕ → ℕ → ℕ → ℕ
unfolding set_bit
push_keep zero s k = k
push_keep (suc left) s k =
    let i = left + 12 in push_keep left s (set_bit k i (if leb 16 i then s / 2 ^ (i - 4) else 1))

unfoldable pub tag_bytes : ModifierData → List ℕ
tag_bytes m =
    0x81 ∷ 0x00 ∷ (m.vlan_prio * 2 ^ 5 + m.vlan_id / 2 ^ 8 % 2 ^ 4) ∷ (m.vlan_id % 2 ^ 8) ∷ []

-- The loops of `MOD_VLAN_POP` from `i` on.
unfoldable pub pop_data : ℕ → ℕ → ℕ → ℕ → ℕ
unfolding set_byte byte_at
pop_data zero i s d = d
pop_data (suc left) i s d =
    pop_data left (i + 1) s (set_byte d i (if ltb (i + 4) keep_w then byte_at s (i + 4) else 0))

unfoldable pub pop_keep : ℕ → ℕ → ℕ → ℕ → ℕ
unfolding set_bit
pop_keep zero i s k = k
pop_keep (suc left) i s k =
    pop_keep left (i + 1) s (set_bit k i (if ltb (i + 4) keep_w then s / 2 ^ (i + 4) else 0))

unfoldable pub dscp_set : ModifierData → ℕ → ℕ → ℕ
unfolding word16_be byte_at set_byte
dscp_set m off s =
    let old = byte_at s (off + 1) in
    let csum = word16_be s (off + 10) in
    let d = set_byte s (off + 1) (m.new_dscp * 4 + old % 4) in
    set_byte (set_byte d (off + 10) ((csum / 2 ^ 8 + (old / 4 + 2 ^ 8 - m.new_dscp)) % 2 ^ 8))
      (off + 10) (csum % 2 ^ 8)

unfoldable pub ecn_set : ModifierData → ℕ → ℕ → ℕ
unfolding byte_at set_byte
ecn_set m off s = set_byte s (off + 1) (byte_at s (off + 1) / 4 * 4 + m.new_ecn)

-- `mod_tdata` and `mod_tkeep` when `do_mod` is set.
unfoldable pub apply : ModifierAction → ModifierData → PacketMetadata → ℕ → ℕ → ℕ × ℕ
unfolding ttl_dec mac_swap mac_set ip_set push_data push_keep tag_bytes pop_data pop_keep dscp_set
    ecn_set
apply mod_nop m meta s k = (s, k)
apply mod_ttl_dec m meta s k = (ttl_dec (ip_off meta) s, k)
apply mod_mac_swap m meta s k = (mac_swap s, k)
apply mod_mac_set m meta s k = (mac_set m s, k)
apply mod_ip_set m meta s k = (ip_set m (ip_off meta) s, k)
apply mod_vlan_push m meta s k = (set_bytes (push_data 52 s s) 12 (tag_bytes m), push_keep 52 k k)
apply mod_vlan_pop m meta s k = (pop_data 52 12 s s, pop_keep 52 12 k k)
apply mod_dscp_set m meta s k = (if meta.ipv4_valid then dscp_set m (ip_off meta) s else s, k)
apply mod_ecn_set m meta s k = (if meta.ipv4_valid then ecn_set m (ip_off meta) s else s, k)

unfoldable pub do_mod : Inputs → Modifier → Bool
do_mod i r = i.axis.s_tvalid && Stage.s_tready i.axis r.stage && r.prev_tlast

-- The beat that the register stage captures.
unfoldable pub modified : Inputs → Modifier → Beat
unfolding do_mod apply
modified i r =
    let b = i.axis.s_data in
    let new = apply i.s_mod_action i.s_mod_data i.s_meta b.tdata b.tkeep in
    if do_mod i r then record b { tdata = new.0; tkeep = new.1 } else b

unfoldable pub posedge : Inputs → Modifier → Modifier
unfolding modified
posedge i r = record {
  prev_tlast =
      if i.axis.rst_n then if i.axis.s_tvalid then i.axis.s_data.tlast else r.prev_tlast else true;
  stage = Stage.posedge (record i.axis { s_data = modified i r }) r.stage;
}
