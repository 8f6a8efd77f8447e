-- ===== src/Encode/Picture.antt =====
-- crates/remoteway-encode/src/backends: the parts of a picture's description that the encoders share.
-- A 32-bit signed number stands as its bits, with the release build's wrap-around.
use remote_way.Prelude.{ℕ, ◌+◌, ◌-◌, ◌%◌, ◌^◌, Option, get_elem?}
use remote_way.Encode.Params.{RateControl}
use remote_way.Encode.Encoder.{Encoder}

-- `VideoReferenceSlotInfoKHR`; `slot_index` is `none` for −1, and `view` for a slot out of bounds,
-- which panics.
pub record SlotInfo (R : Type 0) : Type 0 where
  pub slot_index : Option ℕ
  pub coded_extent : ℕ × ℕ
  pub view : Option ℕ
  pub info : R

abbrev pub as_u32 : ℕ → ℕ
as_u32 n = n % 2 ^ 32

-- `wrapping_sub(1)` of 32 bits
abbrev pub minus_one : ℕ → ℕ
minus_one n = (n + (2 ^ 32 - 1)) % 2 ^ 32

abbrev pub params_qp : RateControl → ℕ
params_qp (RateControl.constant_qp qp) = qp
params_qp _ = 26

abbrev pub slot_info : {D R : Type 0} → Encoder D → Option ℕ → ℕ → R → SlotInfo R
slot_info e index slot info = record {
  slot_index = index;
  coded_extent = (e.params.width, e.params.height);
  view = get_elem? e.dpb slot;
  info = info;
}
