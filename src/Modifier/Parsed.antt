-- ===== src/Modifier/Parsed.antt =====
-- What the parsers find in the data that packet_modifier.sv has put a VLAN tag in.
use fpga_network_processing.Base.{
  Bool, [], ap, arith, false, if◌then◌else◌, true, ℕ, ◌%◌, ◌*◌, ◌+◌, ◌/◌, ◌<◌, ◌==◌, ◌^◌, ◌∙◌, ◌∷◌,
  ◌≡◌, ◌≤◌,
}
use fpga_network_processing.Meta.{PacketMetadata}
use fpga_network_processing.Ipv4Parser.{byte_at, word16_be}
use fpga_network_processing.Parsers.Ethernet
use fpga_network_processing.Parsers.Ethernet.{mac_be}
use fpga_network_processing.Parsers.Vlan
use fpga_network_processing.MatchTable.{ModifierData, mod_vlan_push}
use fpga_network_processing.Modifier.{set_byte, set_bytes, push_data, tag_bytes, apply}
use fpga_network_processing.Modifier.Tag.{
  tagged, tagged_behind, tagged_before, byte_at-set_bytes_first,
}

-- The tag's bytes.
record IsTagged (m : ModifierData) (d : ℕ) : Type 0 where
  b12 : byte_at d 12 ≡ 0x81
  b13 : byte_at d 13 ≡ 0
  b14 : byte_at d 14 ≡ (m.vlan_prio * 2 ^ 5 + m.vlan_id / 2 ^ 8 % 2 ^ 4) % 2 ^ 8
  b15 : byte_at d 15 ≡ m.vlan_id % 2 ^ 8

IsTagged-tagged : (m : ModifierData) (s : ℕ) → IsTagged m (tagged m s)
unfolding set_bytes tag_bytes
IsTagged-tagged m s =
    let d = push_data 52 s s in
    let d1 = set_byte d 12 0x81 in
    let d2 = set_byte d1 13 0 in
    let high = m.vlan_prio * 2 ^ 5 + m.vlan_id / 2 ^ 8 % 2 ^ 4 in
    let low = m.vlan_id % 2 ^ 8 in
    record {
      b12 = byte_at-set_bytes_first d 12 0x81 (0 ∷ high ∷ low ∷ []);
      b13 = byte_at-set_bytes_first d1 13 0 (high ∷ low ∷ []);
      b14 = byte_at-set_bytes_first d2 14 high (low ∷ []);
      b15 = byte_at-set_bytes_first (set_byte d2 14 high) 15 low [] ∙ omega arith;
    }

word16_be-bytes :
    (d i a b : ℕ) → byte_at d i ≡ a → byte_at d (i + 1) ≡ b → word16_be d i ≡ a * 2 ^ 8 + b
unfolding word16_be
word16_be-bytes d i a b e h = λ j. e j * 2 ^ 8 + h j

mac_be-bytes :
    (d s i : ℕ) → ((j : ℕ) → j < 12 → byte_at d j ≡ byte_at s j) → i ≤ 6 → mac_be d i ≡ mac_be s i
unfolding mac_be
mac_be-bytes d s i same h = λ j.
    same i (omega arith) j * 2 ^ 40
    + same (i + 1) (omega arith) j * 2 ^ 32
    + same (i + 2) (omega arith) j * 2 ^ 24
    + same (i + 3) (omega arith) j * 2 ^ 16
    + same (i + 4) (omega arith) j * 2 ^ 8
    + same (i + 5) (omega arith) j

-- What a packet's metadata say of its tag, of the addresses and of the type behind the tag.
abbrev pub SaysTag : ModifierData → ℕ → PacketMetadata → Type 0
SaysTag m s meta =
    (meta.vlan_valid ≡ true)
    × (meta.vlan_id ≡ m.vlan_id)
    × (meta.vlan_prio ≡ m.vlan_prio)
    × (meta.vlan_cfi ≡ false)
    × (meta.ethertype ≡ word16_be s 12)
    × (meta.dst_mac ≡ mac_be s 0)
    × (meta.src_mac ≡ mac_be s 6)

-- The tag's control word: how its bytes make it up, and its fields.
tag_word :
    (id prio : ℕ)
    → id < 2 ^ 12
    → prio < 2 ^ 3
    → let tci = prio * 2 ^ 13 + id in
      ((prio * 2 ^ 5 + id / 2 ^ 8 % 2 ^ 4) % 2 ^ 8 * 2 ^ 8 + id % 2 ^ 8 ≡ tci)
      × (tci % 2 ^ 12 ≡ id)
      × (tci / 2 ^ 13 ≡ prio)
      × ((tci / 2 ^ 12 % 2 == 1) ≡ false)
tag_word id prio h k =
    let zero_bit : (prio * 2 ^ 13 + id) / 2 ^ 12 % 2 ≡ 0 = omega arith in
    (omega arith, omega arith, omega arith, ap (λ t. t == 1) zero_bit)

-- The type behind the tag, and the addresses before it.
behind_tag : (m : ModifierData) (s : ℕ) → word16_be (tagged m s) 16 ≡ word16_be s 12
unfolding word16_be
behind_tag m s =
    word16_be-bytes (tagged m s) 16 (byte_at s 12) (byte_at s 13)
      (tagged_behind m s 12 (omega arith) (omega arith))
      (tagged_behind m s 13 (omega arith) (omega arith))

before_tag :
    (m : ModifierData) (s : ℕ)
    → (mac_be (tagged m s) 0 ≡ mac_be s 0) × (mac_be (tagged m s) 6 ≡ mac_be s 6)
before_tag m s = (
  mac_be-bytes (tagged m s) s 0 (tagged_before m s) (omega arith),
  mac_be-bytes (tagged m s) s 6 (tagged_before m s) (omega arith),
)

-- In data that the modifier has put a tag into, with an identifier of 12 bits and a priority of 3,
-- the Ethernet and the VLAN parser find that tag, its flag not set, the addresses of the data
-- before, and as the type the one that the data had.
pub parse-push :
    (m : ModifierData) (meta meta' : PacketMetadata) (s k : ℕ)
    → m.vlan_id < 2 ^ 12
    → m.vlan_prio < 2 ^ 3
    → let d = (apply mod_vlan_push m meta s k).0 in
      SaysTag m s (Vlan.parse d (Ethernet.parse d meta'))
unfolding apply Vlan.parse Ethernet.parse
parse-push m meta meta' s k id prio =
    let d = tagged m s in
    let t = IsTagged-tagged m s in
    let etype : word16_be d 12 ≡ 0x8100 = word16_be-bytes d 12 0x81 0 t.b12 t.b13 in
    let tci : word16_be d 14 ≡ m.vlan_prio * 2 ^ 13 + m.vlan_id =
      word16_be-bytes d 14 _ _ t.b14 t.b15 ∙ (tag_word m.vlan_id m.vlan_prio id prio).0 in
    let valid : (word16_be d 12 == 0x8100) ≡ true = ap (λ e. e == 0x8100) etype in
    let meta1 = Ethernet.parse d meta' in
    let (fields, id', prio', cfi) = tag_word m.vlan_id m.vlan_prio id prio in
    let read = Vlan.with_tag (word16_be d 14) (word16_be d 16) meta1 in
    let parsed : Vlan.parse d meta1 ≡ read = ap (λ (c : Bool). if c then read else meta1) valid in
    (
      ap (λ r. r.vlan_valid) parsed ∙ valid,
      ap (λ r. r.vlan_id) parsed ∙ ap (λ t. t % 2 ^ 12) tci ∙ id',
      ap (λ r. r.vlan_prio) parsed ∙ ap (λ t. t / 2 ^ 13) tci ∙ prio',
      ap (λ r. r.vlan_cfi) parsed ∙ ap (λ t. t / 2 ^ 12 % 2 == 1) tci ∙ cfi,
      ap (λ r. r.ethertype) parsed ∙ behind_tag m s,
      ap (λ r. r.dst_mac) parsed ∙ (before_tag m s).0,
      ap (λ r. r.src_mac) parsed ∙ (before_tag m s).1,
    )
