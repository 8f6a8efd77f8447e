-- ===== src/Encode/H265.antt =====
-- crates/remoteway-encode/src/backends/h265.rs: what the H.265 encoder asks of the driver. A 32-bit
-- signed number stands as its bits, with the release build's wrap-around. Fields that are the same for
-- every picture (flags, offsets, identifiers) are left out.
pub mod References
use remote_way.Prelude.{
  ℕ, ◌+◌, ◌-◌, ◌*◌, ◌%◌, ◌^◌, Bool, true, false, not, List, [], ◌∷◌, ◌++◌, Option, none, some,
  get_elem?, set, replicate, if◌then◌else◌,
}
use remote_way.Encode.Params.{RateControl, EncodeParams, Outcome}
use remote_way.Encode.Session.{EncodedFrame, InputFrame, Device}
use remote_way.Encode.Encoder.{Encoder, is_idr, setup_slot, ref_slot, encode_with}
use remote_way.Encode.Picture.{SlotInfo, slot_info, as_u32, minus_one, params_qp}

pub data PictureType : Type 0 where
  idr p : PictureType

pub data SliceType : Type 0 where
  i p : SliceType

-- `StdVideoEncodeH265ReferenceInfo`
pub record ReferenceInfo : Type 0 where
  pub pic_type : PictureType
  pub pic_order_cnt_val : ℕ

-- The picture as the driver is told of it.
pub record Picture : Type 0 where
  pub irap_pic_flag : Bool
  pub short_term_ref_pic_set_sps_flag : Bool
  pub collocated_from_l0_flag : Bool
  pub pic_type : PictureType
  pub slice_type : SliceType
  pub pic_order_cnt_val : ℕ
  pub ref_pic_list0 : List ℕ
  pub constant_qp : ℕ
  pub setup_reference_slot : SlotInfo ReferenceInfo
  pub reference_slots : Option (SlotInfo ReferenceInfo)
  pub begin_slots : List (SlotInfo ReferenceInfo)

abbrev pub ref_pic_list0 : Option ℕ → List ℕ
ref_pic_list0 none = replicate 15 255
ref_pic_list0 (some prev) = set (replicate 15 255) 0 (prev % 256)

module _ {D : Type 0} where
  unfoldable pub pic_order_cnt : Encoder D → ℕ
  pic_order_cnt e = as_u32 e.frame_index

  unfoldable pub pic_type : Encoder D → PictureType
  pic_type e = if is_idr e then PictureType.idr else PictureType.p

  unfoldable pub setup_info : Encoder D → ReferenceInfo
  unfolding pic_order_cnt pic_type
  setup_info e = record { pic_type = pic_type e; pic_order_cnt_val = pic_order_cnt e }

  unfoldable pub reference_info : Encoder D → ReferenceInfo
  reference_info e = record {
    pic_type = PictureType.p;
    pic_order_cnt_val = minus_one (as_u32 e.frame_index);
  }

  abbrev pub reference_slots : Encoder D → Option ℕ → Option (SlotInfo ReferenceInfo)
  reference_slots e none = none
  reference_slots e (some prev) = some (slot_info e (some prev) prev (reference_info e))

  abbrev pub begin_slots :
      Encoder D → Option (SlotInfo ReferenceInfo) → List (SlotInfo ReferenceInfo)
  begin_slots e none = slot_info e none (setup_slot e) (setup_info e) ∷ []
  begin_slots e (some info) = slot_info e none (setup_slot e) (setup_info e) ∷ info ∷ []

  unfoldable pub picture : Encoder D → Picture
  unfolding pic_order_cnt pic_type setup_info reference_info
  picture e = record {
    irap_pic_flag = is_idr e;
    short_term_ref_pic_set_sps_flag = not (is_idr e);
    collocated_from_l0_flag = not (is_idr e);
    pic_type = pic_type e;
    slice_type = if is_idr e then SliceType.i else SliceType.p;
    pic_order_cnt_val = pic_order_cnt e;
    ref_pic_list0 = ref_pic_list0 (ref_slot e);
    constant_qp = params_qp e.params.rate_control;
    setup_reference_slot = slot_info e (some (setup_slot e)) (setup_slot e) (setup_info e);
    reference_slots = reference_slots e (ref_slot e);
    begin_slots = begin_slots e (reference_slots e (ref_slot e));
  }

  unfoldable pub encode :
      Device D Picture → InputFrame → Encoder D → Encoder D × Outcome EncodedFrame
  unfolding picture
  encode device frame e = encode_with device picture (λ bytes. bytes) frame e
