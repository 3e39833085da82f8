-- ===== src/Libcam/MemSet.antt =====
-- libcam/src/static_inst_rec.{h,cpp}: the entries of a memory trace as the analysis reads them. A
-- vector is a list with its first element in front.
pub mod Entry
pub mod Singles
pub mod Contiguous
use cam_alias_checker.Prelude.{
  ℕ, zero, suc, ◌+◌, ◌-◌, ◌*◌, ◌/◌, ◌%◌, ◌^◌, Bool, true, false, not, ◌&&◌, Option, none, some,
  List, [], ◌∷◌, ◌++◌, ltb, leb, ◌==◌, if◌then◌else◌, ◌>>=◌,
}
use cam_alias_checker.Libcam.Machine.{word, sub_word, is_negative, magnitude}

pub record MemSetEntry : Type 0 where
  pub base : ℕ
  pub stride : ℕ
  pub length : ℕ
  pub start : ℕ
  pub end : ℕ
  pub iteration_number : ℕ
  pub effective_instr_id : ℕ

-- What the constructors leave in the fields that they do not set.
pub record Uninit : Type 0 where
  pub iteration_number : ℕ
  pub effective_instr_id : ℕ

abbrev pub max_stride : ℕ
max_stride = 8

abbrev pub entry : Uninit → (base stride length start end : ℕ) → MemSetEntry
entry u b s l st e = record {
  base = b;
  stride = s;
  length = l;
  start = st;
  end = e;
  iteration_number = u.iteration_number;
  effective_instr_id = u.effective_instr_id;
}

abbrev pub get_num_instances : MemSetEntry → ℕ
get_num_instances e = (sub_word e.end e.start + 1) % word

abbrev pub get_last : MemSetEntry → ℕ
get_last e = (e.base + sub_word e.end e.start * e.stride) % word

abbrev pub get_access_lower : MemSetEntry → ℕ → ℕ
get_access_lower e n = (e.base + n * e.stride) % word

abbrev pub get_access_upper : MemSetEntry → ℕ → ℕ
get_access_upper e n = sub_word ((e.base + n * e.stride + e.length) % word) 1

abbrev pub get_lower_extent : MemSetEntry → ℕ
get_lower_extent e = if is_negative e.stride then get_last e else e.base

abbrev pub get_upper_extent : MemSetEntry → ℕ
get_upper_extent e =
    if is_negative e.stride
    then sub_word ((e.base + e.length) % word) 1
    else sub_word ((e.base + e.stride * sub_word e.end e.start + e.length) % word) 1

-- `base % length`, which has no result for a length of 0
abbrev pub is_aligned : MemSetEntry → Option Bool
is_aligned e = if e.length == 0 then none else some (e.base % e.length == 0)

unfoldable pub get_normalised : Uninit → MemSetEntry → MemSetEntry
get_normalised u e =
    if is_negative e.stride
    then entry u (get_last e) (magnitude e.stride) e.length e.start e.end
    else e

-- `TracerMemSetEntry::prediction` has a twin here.
abbrev pub prediction : MemSetEntry → ℕ
prediction e = (e.base + e.stride * get_num_instances e) % word

-- the entry that is left, and the new one with the last `n` instances
unfoldable pub split_off_end : Uninit → ℕ → MemSetEntry → MemSetEntry × MemSetEntry
split_off_end u n e =
    let remaining = sub_word (get_num_instances e) n in
    (
      record e { end = sub_word e.end n },
      entry u ((e.base + remaining * e.stride) % word) e.stride e.length
          ((e.start + remaining) % word) e.end,
    )

-- `none` is a failed assertion.
unfoldable pub get_slice : Uninit → (s e : ℕ) → MemSetEntry → Option MemSetEntry
get_slice u s e m =
    if leb m.start s && leb e m.end && leb s e
    then some (entry u ((m.base + sub_word s m.start * m.stride) % word) m.stride m.length s e)
    else none

abbrev pub exceeds_max_stride : ℕ → Bool
exceeds_max_stride stride =
    if is_negative stride
    then ltb max_stride (word - stride) && not (stride == 2 ^ 63)
    else ltb max_stride stride

unfoldable pub is_trivial_pattern : MemSetEntry → Bool
is_trivial_pattern e = get_num_instances e == 2 && exceeds_max_stride e.stride

-- the entry that is left, and the remainder
unfoldable pub split_trivial : Uninit → MemSetEntry → MemSetEntry × MemSetEntry
split_trivial u e = (
  record e { end = e.start },
  entry u ((e.base + e.stride) % word) e.stride e.length ((e.start + 1) % word) e.end,
)

-- The loop of `getSplitPattern`: `n` rounds from `i` on.
unfoldable pub split_from : Uninit → (n i : ℕ) → MemSetEntry → List MemSetEntry
split_from u zero i e = []
split_from u (suc n) i e =
    entry u (get_access_lower e i) 0 e.length ((e.start + i) % word) ((e.start + i) % word)
    ∷ split_from u n (i + 1) e

unfoldable pub get_split_pattern : Uninit → MemSetEntry → List MemSetEntry
unfolding split_from
get_split_pattern u e = split_from u (get_num_instances e) 0 e

-- The quotient is one of unsigned words, also where the stride is negative.
unfoldable pub get_first_dynamic_instance_from_address : (addr : ℕ) → MemSetEntry → ℕ
get_first_dynamic_instance_from_address addr e =
    if e.stride == 0 then e.start else (e.start + sub_word addr e.base / e.stride) % word

unfoldable pub get_last_dynamic_instance_from_address : (addr : ℕ) → MemSetEntry → ℕ
get_last_dynamic_instance_from_address addr e =
    if e.stride == 0 then e.end else (e.start + sub_word addr e.base / e.stride) % word

abbrev pub MemSet : Type 0
MemSet = List MemSetEntry

unfoldable pub split_large_strides : Uninit → MemSet → MemSet
unfolding is_trivial_pattern
split_large_strides u [] = []
split_large_strides u (e ∷ es) =
    (if is_trivial_pattern e
      then entry u e.base 0 e.length e.start e.start
        ∷ entry u ((e.base + e.stride) % word) 0 e.length e.end e.end
        ∷ []
      else e ∷ [])
    ++ split_large_strides u es
