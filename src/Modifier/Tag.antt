-- ===== src/Modifier/Tag.antt =====
-- The loops of packet_modifier.sv that put in and take out a VLAN tag.
use fpga_network_processing.Base.{
  Bool, Bool-cases, List, [], ap, arith, if◌then◌else◌, inl, inr, leb, length, ltb, refl, suc, sym,
  zero, ℕ, ◌%◌, ◌&&◌, ◌+◌, ◌-◌, ◌<◌, ◌==◌, ◌^◌, ◌∙◌, ◌∷◌, ◌≡◌, ◌≤◌, ◌⊎◌,
}
use fpga_network_processing.Meta.{PacketMetadata}
use fpga_network_processing.Ipv4Parser.{byte_at}
use fpga_network_processing.MatchTable.{ModifierData, mod_vlan_push, mod_vlan_pop}
use fpga_network_processing.Modifier.{
  set_byte, set_bytes, push_data, pop_data, tag_bytes, apply, keep_w,
}
use fpga_network_processing.Modifier.Bytes.{byte_at-set_byte}

byte_at-lt : (d j : ℕ) → byte_at d j < 2 ^ 8
unfolding byte_at
byte_at-lt d j = omega arith

-- A write of a byte that depends on its place.
byte_at-write :
    (f : ℕ → ℕ) (d i j : ℕ)
    → ((n : ℕ) → f n < 2 ^ 8)
    → byte_at (set_byte d i (f i)) j ≡ (if i == j then f j else byte_at d j)
byte_at-write f d i j small = byte_at-set_byte d i (f i) j ∙ elim (Bool-cases (i == j)) [
  | inl h ↦
      let e : i ≡ j = ground arith in
      let low : f i % 2 ^ 8 ≡ f i = omega (arith, small i) in
      ap (λ (c : Bool). if c then f i % 2 ^ 8 else byte_at d j) h
      ∙ low
      ∙ ap f e
      ∙ sym (ap (λ (c : Bool). if c then f j else byte_at d j) h)
  | inr h ↦
      ap (λ (c : Bool). if c then f i % 2 ^ 8 else byte_at d j) h
      ∙ sym (ap (λ (c : Bool). if c then f j else byte_at d j) h)
]

-- The bytes behind the addresses, four up and four down.
abbrev up : ℕ → ℕ → ℕ
up s j = if leb 16 j then byte_at s (j - 4) else 0

abbrev down : ℕ → ℕ → ℕ
down s j = if ltb (j + 4) keep_w then byte_at s (j + 4) else 0

byte_at-push_data :
    (left s d j : ℕ)
    → byte_at (push_data left s d) j
      ≡ (if leb 12 j && ltb j (left + 12) then up s j else byte_at d j)
unfolding push_data
byte_at-push_data zero s d j = ground arith
byte_at-push_data (suc left) s d j =
    let i = left + 12 in
    let small : (n : ℕ) → up s n < 2 ^ 8 = λ n. ground (arith, byte_at-lt s (n - 4)) in
    let written = byte_at-write (up s) d i j small in
    byte_at-push_data left s (set_byte d i (up s i)) j ∙ ground (arith, written)

byte_at-pop_data :
    (left i s d j : ℕ)
    → byte_at (pop_data left i s d) j
      ≡ (if leb i j && ltb j (i + left) then down s j else byte_at d j)
unfolding pop_data
byte_at-pop_data zero i s d j = ground arith
byte_at-pop_data (suc left) i s d j =
    let small : (n : ℕ) → down s n < 2 ^ 8 = λ n. ground (arith, byte_at-lt s (n + 4)) in
    let written = byte_at-write (down s) d i j small in
    byte_at-pop_data left (i + 1) s (set_byte d i (down s i)) j ∙ ground (arith, written)

-- Writes from `i` on leave the bytes before and behind them.
byte_at-set_bytes :
    (d i : ℕ) (bs : List ℕ) (j : ℕ)
    → (i + length bs ≤ j) ⊎ (j < i)
    → byte_at (set_bytes d i bs) j ≡ byte_at d j
unfolding set_bytes
byte_at-set_bytes d i [] j h = refl
byte_at-set_bytes d i (b ∷ bs) j h =
    let first : byte_at (set_byte d i b) j ≡ byte_at d j =
      ground (arith, byte_at-set_byte d i b j) in
    byte_at-set_bytes (set_byte d i b) (i + 1) bs j (ground arith) ∙ first

byte_at-tag :
    (m : ModifierData) (d j : ℕ)
    → (16 ≤ j) ⊎ (j < 12)
    → byte_at (set_bytes d 12 (tag_bytes m)) j ≡ byte_at d j
unfolding tag_bytes
byte_at-tag m d j h = byte_at-set_bytes d 12 (tag_bytes m) j h

-- Which byte a loop leaves at `j`.
module _ (j x z : ℕ) where
  read_down :
      12 ≤ j → j < 60 → (if leb 12 j && ltb j 64 then if ltb (j + 4) 64 then x else 0 else z) ≡ x
  read_down p h = ground arith

  read_up : 16 ≤ j → j < 64 → (if leb 12 j && ltb j 64 then if leb 16 j then x else 0 else z) ≡ x
  read_up p h = ground arith

  below : (c : Bool) → j < 12 → (if leb 12 j && c then x else z) ≡ z
  below c p = ground arith

-- The data with a tag in it.
abbrev pub tagged : ModifierData → ℕ → ℕ
tagged m s = set_bytes (push_data 52 s s) 12 (tag_bytes m)

pub tagged_behind :
    (m : ModifierData) (s j : ℕ) → 12 ≤ j → j < 60 → byte_at (tagged m s) (j + 4) ≡ byte_at s j
tagged_behind m s j p h =
    byte_at-tag m (push_data 52 s s) (j + 4) (inl (omega arith))
    ∙ byte_at-push_data 52 s s (j + 4)
    ∙ read_up (j + 4) (byte_at s (j + 4 - 4)) (byte_at s (j + 4)) (omega arith) (omega arith)
    ∙ ap (byte_at s) {x = j + 4 - 4} {y = j} (omega arith)

pub tagged_before : (m : ModifierData) (s j : ℕ) → j < 12 → byte_at (tagged m s) j ≡ byte_at s j
tagged_before m s j h =
    byte_at-tag m (push_data 52 s s) j (inr h)
    ∙ byte_at-push_data 52 s s j
    ∙ below j (up s j) (byte_at s j) (ltb j 64) h

pub byte_at-set_bytes_first :
    (d i b : ℕ) (bs : List ℕ) → byte_at (set_bytes d i (b ∷ bs)) i ≡ b % 2 ^ 8
unfolding set_bytes
byte_at-set_bytes_first d i b bs =
    byte_at-set_bytes (set_byte d i b) (i + 1) bs i (inr (omega arith))
    ∙ ground (arith, byte_at-set_byte d i b i)

-- Taking a VLAN tag out of data that it was put into gives back its first 60 bytes, whatever the
-- tag.
pub pop-push :
    (m m' : ModifierData) (meta meta' : PacketMetadata) (s k k' j : ℕ)
    → j < 60
    → byte_at (apply mod_vlan_pop m' meta' (apply mod_vlan_push m meta s k).0 k').0 j ≡ byte_at s j
unfolding apply
pop-push m m' meta meta' s k k' j h =
    let d = tagged m s in
    byte_at-pop_data 52 12 d d j ∙ elim (Bool-cases (leb 12 j)) [
      | inl p ↦
          let behind : 12 ≤ j = ground arith in
          read_down j (byte_at d (j + 4)) (byte_at d j) behind h ∙ tagged_behind m s j behind h
      | inr p ↦
          let before : j < 12 = ground arith in
          below j (down d j) (byte_at d j) (ltb j 64) before ∙ tagged_before m s j before
    ]
