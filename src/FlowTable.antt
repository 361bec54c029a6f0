-- ===== src/FlowTable.antt =====
-- rtl/memory/flow_table.sv at its defaults: 128 flows, in two ways of 64 sets, and a time-out of
-- 100000 cycles. The circuit reads past two of its vectors: `lru`, which has a bit per way where
-- the sets index it, and the last slice of the hash. What such a read gives is an input, `past`; a
-- write past `lru` is lost.
pub mod Found
pub mod Lookup
pub mod Unique
pub mod Hash
pub mod Placed
mod Tests
use fpga_network_processing.Base.{
  Bool, List, [], bit_xor, false, get_or, if◌then◌else◌, ltb, not, true, ℕ, ◌%◌, ◌&&◌, ◌*◌, ◌+◌,
  ◌-◌, ◌/◌, ◌==◌, ◌^◌, ◌||◌, ◌∷◌,
}
use fpga_network_processing.Fifo
use fpga_network_processing.Stage
use fpga_network_processing.Stage.{Stage}
use fpga_network_processing.Meta.{PacketMetadata}
use fpga_network_processing.Ipv4Parser.{Beat}

pub record FlowKey : Type 0 where
  pub src_ip : ℕ
  pub dst_ip : ℕ
  pub protocol : ℕ
  pub src_port : ℕ
  pub dst_port : ℕ

pub record FlowEntry : Type 0 where
  pub valid : Bool
  pub key : FlowKey
  pub packet_count : ℕ
  pub byte_count : ℕ
  pub last_seen : ℕ

pub record FlowTable : Type 0 where
  pub way0 : ℕ → FlowEntry
  pub way1 : ℕ → FlowEntry
  pub lru0 : Bool
  pub lru1 : Bool
  pub now : ℕ
  pub stage : Stage Beat

pub record Past : Type 0 where
  pub lru : Bool
  pub hash : ℕ

pub record Inputs : Type 0 where
  pub axis : Fifo.Inputs Beat
  pub s_meta : PacketMetadata
  pub past : Past

abbrev pub timeout_cycles : ℕ
timeout_cycles = 100000

unfoldable pub flow_key : PacketMetadata → FlowKey
flow_key meta = record {
  src_ip = meta.src_ip;
  dst_ip = meta.dst_ip;
  protocol = meta.protocol;
  src_port = meta.src_port;
  dst_port = meta.dst_port;
}

unfoldable pub same_key : FlowKey → FlowKey → Bool
same_key a b =
    a.src_ip == b.src_ip
    && a.dst_ip == b.dst_ip
    && a.protocol == b.protocol
    && a.src_port == b.src_port
    && a.dst_port == b.dst_port

-- `TOEPLITZ_KEY`
abbrev pub toeplitz_key : List ℕ
toeplitz_key =
    0xddaa3f5a ∷ 0x7c7e2b4a ∷ 0x8b4e9f1c ∷ 0xd1e3a8b6 ∷ 0x5f2c7d90 ∷ 0xa1b3c4d5 ∷ 0xe6f70819
    ∷ 0x2a3b4c5d ∷ 0x6e7f8091 ∷ 0xa2b3c4d5 ∷ 0xe6f71829 ∷ 0x3a4b5c6d ∷ 0x7e8f9012 ∷ 0xb3c4d5e6
    ∷ 0xf718293a ∷ 0x4b5c6d7e ∷ 0x8f901234 ∷ 0xc4d5e6f7 ∷ 0x18293a4b ∷ 0x5c6d7e8f ∷ 0x90123456
    ∷ 0xd5e6f718 ∷ 0x293a4b5c ∷ 0x6d7e8f90 ∷ 0xa2345678 ∷ 0xe6f71829 ∷ 0x3a4b5c6d ∷ 0x7e8f90a1
    ∷ 0xb2345678 ∷ 0xf718293a ∷ 0x4b5c6d7e ∷ 0x8f90a1b2 ∷ []

-- The words of it that are used: `TOEPLITZ_KEY[w * 8]` for `w` from 0 to 3.
abbrev pub hash_keys : List ℕ
hash_keys =
    get_or toeplitz_key (0 * 8) 0
    ∷ get_or toeplitz_key (1 * 8) 0
    ∷ get_or toeplitz_key (2 * 8) 0
    ∷ get_or toeplitz_key (3 * 8) 0
    ∷ []

unfoldable pub tuple_words : FlowKey → List ℕ
tuple_words k =
    k.src_ip
    ∷ k.dst_ip
    ∷ (k.protocol * 2 ^ 24 + k.src_port * 2 ^ 8)
    ∷ (k.dst_port * 2 ^ 16 % 2 ^ 32)
    ∷ []

unfoldable pub accumulate : List ℕ → List ℕ → ℕ → ℕ
accumulate [] keys acc = acc
accumulate (t ∷ ts) [] acc = acc
accumulate (t ∷ ts) (k ∷ ks) acc = accumulate ts ks (bit_xor acc (bit_xor t k))

-- The low 6 bits with the slice at `s` folded into them.
abbrev pub fold_slice : ℕ → ℕ → ℕ → ℕ
fold_slice past s acc =
    acc / 2 ^ 6 * 2 ^ 6 + bit_xor (acc % 2 ^ 6) ((past * 2 ^ 32 + acc) / 2 ^ s % 2 ^ 6)

unfoldable pub set_idx : Past → FlowKey → ℕ
unfolding accumulate tuple_words
set_idx past k =
    let acc = accumulate (tuple_words k) hash_keys 0 in
    fold_slice past.hash 30 (
      fold_slice past.hash 24
        (fold_slice past.hash 18 (fold_slice past.hash 12 (fold_slice past.hash 6 acc))))
    % 2 ^ 6

-- `way_valid` and `way_hit` of an entry.
unfoldable pub fresh : ℕ → FlowEntry → Bool
fresh now e = e.valid && ltb ((now + 2 ^ 32 - e.last_seen) % 2 ^ 32) timeout_cycles

unfoldable pub hit : FlowKey → FlowEntry → Bool
unfolding same_key
hit k e = e.valid && same_key e.key k

unfoldable pub flow_hit : ℕ → FlowKey → FlowEntry → FlowEntry → Bool
unfolding fresh hit
flow_hit now k e0 e1 = hit k e0 && fresh now e0 || hit k e1 && fresh now e1

unfoldable pub expired_hit : ℕ → FlowKey → FlowEntry → FlowEntry → Bool
unfolding fresh hit
expired_hit now k e0 e1 = hit k e0 && not (fresh now e0) || hit k e1 && not (fresh now e1)

-- An entry after a hit, given the counts read; after an expired hit; and a new one.
abbrev pub counted : ℕ → ℕ → ℕ → ℕ → FlowEntry → FlowEntry
counted now bytes pkts total e = record e {
  packet_count = (pkts + 1) % 2 ^ 48;
  byte_count = (total + bytes) % 2 ^ 64;
  last_seen = now;
}

abbrev pub restarted : ℕ → ℕ → FlowEntry → FlowEntry
restarted now bytes e = record e {
  valid = true;
  packet_count = 1;
  byte_count = bytes;
  last_seen = now;
}

abbrev pub inserted : ℕ → FlowKey → ℕ → FlowEntry
inserted now k bytes = record {
  valid = true;
  key = k;
  packet_count = 1;
  byte_count = bytes;
  last_seen = now;
}

-- The two entries of a set and its `lru` bit after a packet.
pub record Row : Type 0 where
  pub e0 : FlowEntry
  pub e1 : FlowEntry
  pub lru : Bool

unfoldable pub update : ℕ → FlowKey → ℕ → Row → Row
unfolding flow_hit expired_hit
update now k bytes r =
    let h0 = hit k r.e0 in
    let h1 = hit k r.e1 in
    let v0 = fresh now r.e0 in
    let v1 = fresh now r.e1 in
    let pkts = if h0 then r.e0.packet_count else r.e1.packet_count in
    let total = if h0 then r.e0.byte_count else r.e1.byte_count in
    if flow_hit now k r.e0 r.e1
    then record {
      e0 = if h0 && v0 then counted now bytes pkts total r.e0 else r.e0;
      e1 = if h1 && v1 then counted now bytes pkts total r.e1 else r.e1;
      lru = if h1 && v1 then false else true;
    }
    else if expired_hit now k r.e0 r.e1
    then record {
      e0 = if h0 then restarted now bytes r.e0 else r.e0;
      e1 = if h1 then restarted now bytes r.e1 else r.e1;
      lru = if h1 then false else true;
    }
    else record {
      e0 = if r.lru then inserted now k bytes else r.e0;
      e1 = if r.lru then r.e1 else inserted now k bytes;
      lru = not r.lru;
    }

abbrev pub lru_at : Past → FlowTable → ℕ → Bool
lru_at past t s = if s == 0 then t.lru0 else if s == 1 then t.lru1 else past.lru

abbrev pub row : Past → FlowTable → ℕ → Row
row past t s = record { e0 = t.way0 s; e1 = t.way1 s; lru = lru_at past t s }

abbrev pub store : (ℕ → FlowEntry) → ℕ → FlowEntry → ℕ → FlowEntry
store way s e j = if j == s then e else way j

abbrev pub no_flow : FlowEntry
no_flow = record {
  valid = false;
  key = record { src_ip = 0; dst_ip = 0; protocol = 0; src_port = 0; dst_port = 0 };
  packet_count = 0;
  byte_count = 0;
  last_seen = 0;
}

unfoldable pub update_en : Inputs → FlowTable → Bool
update_en i t = i.axis.s_tvalid && Stage.s_tready i.axis t.stage && i.axis.s_data.tlast

-- The row that an edge writes, and where.
unfoldable pub updated : Inputs → FlowTable → Row
unfolding update flow_key set_idx
updated i t =
    let k = flow_key i.s_meta in
    update t.now k i.s_meta.pkt_length (row i.past t (set_idx i.past k))

unfoldable pub posedge : Inputs → FlowTable → FlowTable
unfolding update_en updated
posedge i t =
    let s = set_idx i.past (flow_key i.s_meta) in
    let new = updated i t in
    if i.axis.rst_n
    then record {
      way0 = if update_en i t then store t.way0 s new.e0 else t.way0;
      way1 = if update_en i t then store t.way1 s new.e1 else t.way1;
      lru0 = if update_en i t && s == 0 then new.lru else t.lru0;
      lru1 = if update_en i t && s == 1 then new.lru else t.lru1;
      now = (t.now + 1) % 2 ^ 32;
      stage = Stage.posedge i.axis t.stage;
    }
    else record {
      way0 = λ s. no_flow;
      way1 = λ s. no_flow;
      lru0 = false;
      lru1 = false;
      now = 0;
      stage = Stage.posedge i.axis t.stage;
    }
