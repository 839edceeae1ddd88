-- ===== src/Emc/State.antt =====
-- The state of qemu/overlay/hw/mem/jz4740_emc.c, its interrupt, and the data of the NAND device that go
-- through its error correction: from emc_update_irq to emc_nand_data.
use bbk9588_emulator.Base.{
  ℕ, zero, suc, ◌+◌, ◌-◌, ◌*◌, ◌/◌, ◌%◌, ◌^◌, bit_and, bit_or, min, Bool, true, false, not, ◌&&◌,
  ◌||◌, ◌==◌, ◌!=◌, leb, ltb, if◌then◌else◌, Option, none, some, List, ◌∷◌, update,
}
use bbk9588_emulator.Bits.{has, not32}

-- `jz4740_hamming_encode`, `jz4740_rs_encode` and `jz4740_rs_decode`. A decoding gives the number of
-- errors, nothing if there are too many, and the index and the mask of each correction.
pub record Codec : Type 0 where
  pub hamming_encode : (ℕ → ℕ) → ℕ → ℕ
  pub rs_encode : (ℕ → ℕ) → ℕ → ℕ
  pub rs_decode : (ℕ → ℕ) → (ℕ → ℕ) → Option ℕ × (ℕ → ℕ × ℕ)

-- `JZ4740EMCState`. `output` lists what `qemu_set_irq` drove and `board_writes` the calls of the board's
-- callback, the latest first.
pub record Emc : Type 0 where
  pub output : List Bool
  pub board_writes : List (ℕ × ℕ)
  pub regs : ℕ → ℕ
  pub last_read_offset : ℕ
  pub last_read_value : ℕ
  pub last_write_offset : ℕ
  pub last_write_value : ℕ
  pub ecc_data : ℕ → ℕ
  pub ecc_data_count : ℕ
  pub irq_level : Bool

-- `JZ4740_ECC_BLOCK_BYTES`
abbrev pub block_bytes : ℕ
block_bytes = 512

-- the registers, by their index: `EMC_NFCSR / sizeof(uint32_t)` and so on
abbrev pub nfcsr : ℕ
nfcsr = 0x14

abbrev pub nfeccr : ℕ
nfeccr = 0x40

abbrev pub nfecc : ℕ
nfecc = 0x41

abbrev pub nfpar0 : ℕ
nfpar0 = 0x42

abbrev pub nfpar1 : ℕ
nfpar1 = 0x43

abbrev pub nfpar2 : ℕ
nfpar2 = 0x44

abbrev pub nfints : ℕ
nfints = 0x45

abbrev pub nfinte : ℕ
nfinte = 0x46

abbrev pub nferr0 : ℕ
nferr0 = 0x47

-- `EMC_NFECCR_ECCE`, `ERST`, `RSE`, `ENCE` and `PRDY`
abbrev pub ecce : ℕ
ecce = 0x01

abbrev pub erst : ℕ
erst = 0x02

abbrev pub rse : ℕ
rse = 0x04

abbrev pub ence : ℕ
ence = 0x08

abbrev pub prdy : ℕ
prdy = 0x10

-- `EMC_NFINTS_ERR`, `UNCOR`, `ENCF`, `DECF` and `PADF`
abbrev pub err : ℕ
err = 0x01

abbrev pub uncor : ℕ
uncor = 0x02

abbrev pub encf : ℕ
encf = 0x04

abbrev pub decf : ℕ
decf = 0x08

abbrev pub padf : ℕ
padf = 0x10

-- `s->regs[i] = v`
abbrev pub set : Emc → ℕ → ℕ → Emc
set s i v = record s { regs = update s.regs i v }

-- the level that `emc_update_irq` computes
abbrev pub level_of : ℕ → ℕ → Bool
level_of status enable =
    (has status padf && has enable padf)
    || (has status (bit_or encf decf) && has enable encf)
    || (has status uncor && has enable uncor)
    || (has status err && has enable err)

-- `emc_update_irq`
unfoldable pub update_irq : Emc → Emc
update_irq s =
    let level = level_of (s.regs nfints) (s.regs nfinte) in
    record s { irq_level = level; output = level ∷ s.output }

-- `emc_ecc_begin_block`
unfoldable pub begin_block : Emc → Emc
begin_block s = record s { ecc_data = λ i. 0; ecc_data_count = 0 }

-- `emc_ecc_clear_results`: the registers from NFECC to NFERR3 but NFINTE
unfoldable pub clear_results : Emc → Emc
clear_results s = update_irq (
    begin_block (record s {
      regs = λ i. if leb nfecc i && leb i (nferr0 + 3) && not (i == nfinte) then 0 else s.regs i;
    }))

-- `ldl_le_p(p + i)`
abbrev pub load_le32 : (ℕ → ℕ) → ℕ → ℕ
load_le32 p i = p i + p (i + 1) * 2 ^ 8 + p (i + 2) * 2 ^ 16 + p (i + 3) * 2 ^ 24

-- `emc_store_rs_parity`
unfoldable pub store_rs_parity : Emc → (ℕ → ℕ) → Emc
store_rs_parity s parity =
    set (set (set s nfpar0 (load_le32 parity 0)) nfpar1 (load_le32 parity 4)) nfpar2 (parity 8)

-- `emc_load_rs_parity`
unfoldable pub load_rs_parity : Emc → ℕ → ℕ
load_rs_parity s i =
    if ltb i 4
    then s.regs nfpar0 / 2 ^ (i * 8) % 2 ^ 8
    else if ltb i 8
    then s.regs nfpar1 / 2 ^ ((i - 4) * 8) % 2 ^ 8
    else bit_and (s.regs nfpar2) 0xff

-- the registers NFERR0 to NFERR3: the corrections, and 0 after the last
abbrev pub set_errors : (ℕ → ℕ) → ℕ → (ℕ → ℕ × ℕ) → ℕ → ℕ
set_errors regs count corrections i =
    if leb nferr0 i && ltb i (nferr0 + 4)
    then (if ltb (i - nferr0) count
        then bit_or ((corrections (i - nferr0)).0 * 2 ^ 16 % 2 ^ 32) ((corrections (i - nferr0)).1)
        else 0)
    else regs i

-- The status bits of a decoding: none of an error count is uncorrectable.
abbrev pub decoded_status : Option ℕ → ℕ
decoded_status none = bit_or decf (bit_or uncor err)
decoded_status (some zero) = decf
decoded_status (some (suc n)) = bit_or (bit_or decf err) (suc n * 2 ^ 29 % 2 ^ 32)

abbrev pub error_count : Option ℕ → ℕ
error_count none = 0
error_count (some n) = n

module _ (c : Codec) where
  -- `emc_rs_encode_complete`
  unfoldable pub rs_encode_complete : Emc → Emc
  rs_encode_complete s =
      let t = store_rs_parity s (c.rs_encode s.ecc_data) in
      update_irq (set t nfints (bit_or (t.regs nfints) encf))

  -- `emc_rs_decode_complete`
  unfoldable pub rs_decode_complete : Emc → Emc
  rs_decode_complete s =
      let (errors, corrections) = c.rs_decode s.ecc_data (load_rs_parity s) in
      let status = bit_and (s.regs nfints) (not32 0xe000000b) in
      update_irq (
        set (record s { regs = set_errors s.regs (error_count errors) corrections }) nfints
          (bit_or status (decoded_status errors)))

  -- The loop of `emc_nand_data`, on the bytes of the access that are left.
  unfoldable pub take_bytes : ℕ → ℕ → Emc → Emc
  take_bytes zero value s = s
  take_bytes (suc left) value s =
      let taken = record s {
        ecc_data = update s.ecc_data s.ecc_data_count (value % 2 ^ 8);
        ecc_data_count = s.ecc_data_count + 1;
      } in
      elim (ltb s.ecc_data_count block_bytes) [
        | true ↦ take_bytes left (value / 2 ^ 8) taken
        | false ↦ s
      ]

  -- the end of `emc_nand_data`, when the block is full
  unfoldable pub complete : Emc → Bool → Emc
  complete s encode =
      if has (s.regs nfeccr) rse
      then (if encode
          then rs_encode_complete s
          else update_irq (set s nfints (bit_or (s.regs nfints) padf)))
      else set s nfecc (c.hamming_encode s.ecc_data s.ecc_data_count)

  -- `emc_nand_data`
  unfoldable pub nand_data : Emc → ℕ → ℕ → Bool → Emc
  nand_data s value size write =
      let encode = has (s.regs nfeccr) ence in
      if not (has (s.regs nfeccr) ecce) || encode != write || leb block_bytes s.ecc_data_count
      then s
      else (let t = take_bytes (min size 4) value s in
          if not (t.ecc_data_count == block_bytes) then t else complete t encode)
