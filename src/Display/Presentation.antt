-- ===== src/Display/Presentation.antt =====
-- crates/remoteway-display/src/presentation.rs: the measure of the refresh interval. The request of feedback is a call of the
-- compositor and is left out, and so is its clock's number. Counts and times are of 64 bits.
pub mod Interval
use remote_way.Prelude.{
  ℕ, zero, suc, ◌+◌, ◌-◌, ◌*◌, ◌/◌, ◌%◌, ◌^◌, ◌≤◌, ◌<◌, min, max, bit_and, bit_or, bit_xor, Bool,
  true, false, not, ◌&&◌, ◌||◌, List, [], ◌∷◌, ◌++◌, map, Option, none, some, length, take, drop,
  set, replicate, get_elem?, leb, ltb, ◌==◌, if◌then◌else◌, ◌≡◌, ◌≢◌, ◌⊎◌, inl, inr, refl, ◌∙◌, sym,
  ap, ap₂, subst, arith, append_assoc, append-nil, length-take, length-drop, length-append,
  drop-drop, take-append-drop, length-set, drop_all, take_all, take-length, drop-length, drop-take,
  take-take, take-set, drop-set, drop_get, All, All-take, All-drop, All-append, Bool-cases,
  Option-cases, ==_iff, ltb→lt, lt→ltb, le→not-ltb, not-ltb→le, length-map, get_of_drop,
  length-replicate,
}

pub record PresentationSync : Type 0 where
  pub last_presented_ns : ℕ
  pub frame_interval_ns : ℕ
  pub sample_count : ℕ

abbrev pub new_sync : PresentationSync
new_sync = record { last_presented_ns = 0; frame_interval_ns = 16666667; sample_count = 0 }

-- The first intervals are taken as they are, the others smoothed.
abbrev pub smooth : PresentationSync → ℕ → ℕ
smooth p interval =
    if ltb p.sample_count 4
    then interval
    else (p.frame_interval_ns * 7 % 2 ^ 64 + interval) % 2 ^ 64 / 8

unfoldable pub measure : PresentationSync → ℕ → ℕ
measure p interval =
    if ltb 0 p.last_presented_ns && (ltb 0 interval && ltb interval 100000000)
    then smooth p interval
    else p.frame_interval_ns

unfoldable pub record_presentation : PresentationSync → ℕ → PresentationSync
record_presentation p timestamp_ns = record p {
  frame_interval_ns = measure p (timestamp_ns - p.last_presented_ns);
  last_presented_ns = timestamp_ns;
  sample_count = (p.sample_count + 1) % 2 ^ 64;
}

abbrev pub record_presentations : PresentationSync → List ℕ → PresentationSync
record_presentations p [] = p
record_presentations p (t ∷ ts) = record_presentations (record_presentation p t) ts
