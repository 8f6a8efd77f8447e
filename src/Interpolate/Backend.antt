-- ===== src/Interpolate/Backend.antt =====
-- crates/remoteway-interpolate/src/backend.rs: which backend is used. What the build enables and the making of the
-- GPU backends, which are calls of their libraries, are parameters; a backend is known by its name.
use remote_way.Prelude.{Bool, ◌&&◌, List, [], ◌∷◌, ◌++◌, Option, none, some, if◌then◌else◌}
use remote_way.Interpolate.{InterpolateError, init_failed, InterpolateResult, ok, err}

pub data BackendKind : Type 0 where
  linear_blend fsr2 fsr3 fsr2_rife : BackendKind

-- The features of the build.
pub record Features : Type 0 where
  pub has_fsr2 : Bool
  pub has_fsr3 : Bool
  pub has_fsr2_rife : Bool

-- Whether Vulkan is there, and what making each backend gives: `none` for success.
pub record Gpu : Type 0 where
  pub is_vulkan_available : Bool
  pub new_fsr2 : Option InterpolateError
  pub new_fsr3 : Option InterpolateError
  pub new_fsr2_rife : Option InterpolateError

unfoldable pub check_fsr3 : Features → Gpu → Bool
check_fsr3 features gpu = features.has_fsr3 && gpu.is_vulkan_available

unfoldable pub check_fsr2 : Features → Gpu → Bool
check_fsr2 features gpu = features.has_fsr2 && gpu.is_vulkan_available

unfoldable pub detect_available : Features → Gpu → List BackendKind
detect_available features gpu =
    (if check_fsr3 features gpu then fsr3 ∷ [] else [])
    ++ ((if check_fsr2 features gpu then fsr2 ∷ [] else []) ++ (linear_blend ∷ []))

abbrev pub made : BackendKind → Option InterpolateError → InterpolateResult BackendKind
made kind none = ok kind
made kind (some e) = err e

-- FSR 3 gives way to FSR 2 if the build has it.
abbrev pub made_fsr3 : Features → Gpu → Option InterpolateError → InterpolateResult BackendKind
made_fsr3 features gpu none = ok fsr3
made_fsr3 features gpu (some e) = if features.has_fsr2 then made fsr2 gpu.new_fsr2 else err e

unfoldable pub create_backend : Features → Gpu → BackendKind → InterpolateResult BackendKind
create_backend features gpu linear_blend = ok linear_blend
create_backend features gpu fsr2 =
    if features.has_fsr2 then made fsr2 gpu.new_fsr2 else err init_failed
create_backend features gpu fsr3 =
    if features.has_fsr3 then made_fsr3 features gpu gpu.new_fsr3 else err init_failed
create_backend features gpu fsr2_rife =
    if features.has_fsr2_rife then made fsr2_rife gpu.new_fsr2_rife else err init_failed

abbrev pub first_or : BackendKind → List BackendKind → BackendKind
first_or kind [] = kind
first_or kind (k ∷ ks) = k

unfoldable pub select_best : Features → Gpu → InterpolateResult BackendKind
select_best features gpu =
    create_backend features gpu (first_or linear_blend (detect_available features gpu))
