-- ===== src/Nib/Refinement.antt =====
-- The packed word is a refinement of the bit field.
use Prim.Native.Nat.{bit_or}
use riot_playground.Common.{
  ℕ, ◌+◌, ◌*◌, ◌/◌, ◌%◌, ◌^◌, ◌<◌, ◌≡◌, refl, ap, ◌∙◌, List, [], ◌∷◌, true, ◌==◌, arith,
}
use riot_playground.Common.Bits.{bit_and-mask, replace_bits, set_bits}
use riot_playground.Nib.{
  Fields, Assignment, assign_field, set_masked, get_masked, has_flag, assign_flags, read_flags,
  is_router_flag, use_for_comp_flag, run_fields, run_flags,
}

-- The fields as digits of the word.
digits_of : ℕ → Fields
digits_of x = record {
  pfx_len = x % 256;
  l2addr_len = x / 256 % 16;
  nud_state = x / 4096 % 8;
  is_router = x / 32768 % 2 == 1;
  iface = x / 65536 % 32;
  ar_state = x / 2097152 % 4;
  use_for_comp = x / 8388608 % 2 == 1;
  cid = x / 16777216 % 16;
}

has_router : (x : ℕ) → has_flag is_router_flag x ≡ (x / 32768 % 2 == 1)
unfolding has_flag
has_router x = ground (arith, bit_and-mask 15 1 x)

has_comp : (x : ℕ) → has_flag use_for_comp_flag x ≡ (x / 8388608 % 2 == 1)
unfolding has_flag
has_comp x = ground (arith, bit_and-mask 23 1 x)

read_flags-digits : (x : ℕ) → read_flags x ≡ digits_of x
unfolding read_flags digits_of get_masked
read_flags-digits x = ground (
  arith,
  bit_and-mask 0 8 x,
  bit_and-mask 8 4 x,
  bit_and-mask 12 3 x,
  bit_and-mask 16 5 x,
  bit_and-mask 21 2 x,
  bit_and-mask 24 4 x,
  has_router x,
  has_comp x,
)

-- The sum of a word and of what it loses is the old word with the new digits.
set_pfx_len : (f v : ℕ) → f < 2 ^ 32 → set_masked 0xff 0 v f + f % 256 ≡ f + v % 256
unfolding set_masked
set_pfx_len f v h = omega (
  arith,
  replace_bits 32 f (v * 1) 0xff (omega arith) (omega arith),
  bit_and-mask 0 8 f,
  bit_and-mask 0 8 (v * 1),
)

digits-pfx_len :
    (f g v : ℕ)
    → g + f % 256 ≡ f + v % 256
    → digits_of g ≡ record (digits_of f) { pfx_len = v % 2 ^ 8 }
unfolding digits_of
digits-pfx_len f g v h = ground arith

set_l2addr_len :
    (f v : ℕ) → f < 2 ^ 32 → set_masked 0xf00 8 v f + f / 256 % 16 * 256 ≡ f + v % 16 * 256
unfolding set_masked
set_l2addr_len f v h = omega (
  arith,
  replace_bits 32 f (v * 256) 0xf00 (omega arith) (omega arith),
  bit_and-mask 8 4 f,
  bit_and-mask 8 4 (v * 256),
)

digits-l2addr_len :
    (f g v : ℕ)
    → g + f / 256 % 16 * 256 ≡ f + v % 16 * 256
    → digits_of g ≡ record (digits_of f) { l2addr_len = v % 2 ^ 4 }
unfolding digits_of
digits-l2addr_len f g v h = ground arith

set_nud_state :
    (f v : ℕ) → f < 2 ^ 32 → set_masked 0x7000 12 v f + f / 4096 % 8 * 4096 ≡ f + v % 8 * 4096
unfolding set_masked
set_nud_state f v h = omega (
  arith,
  replace_bits 32 f (v * 4096) 0x7000 (omega arith) (omega arith),
  bit_and-mask 12 3 f,
  bit_and-mask 12 3 (v * 4096),
)

digits-nud_state :
    (f g v : ℕ)
    → g + f / 4096 % 8 * 4096 ≡ f + v % 8 * 4096
    → digits_of g ≡ record (digits_of f) { nud_state = v % 2 ^ 3 }
unfolding digits_of
digits-nud_state f g v h = ground arith

set_iface :
    (f v : ℕ)
    → f < 2 ^ 32
    → set_masked 0x1f0000 16 v f + f / 65536 % 32 * 65536 ≡ f + v % 32 * 65536
unfolding set_masked
set_iface f v h = omega (
  arith,
  replace_bits 32 f (v * 65536) 0x1f0000 (omega arith) (omega arith),
  bit_and-mask 16 5 f,
  bit_and-mask 16 5 (v * 65536),
)

digits-iface :
    (f g v : ℕ)
    → g + f / 65536 % 32 * 65536 ≡ f + v % 32 * 65536
    → digits_of g ≡ record (digits_of f) { iface = v % 2 ^ 5 }
unfolding digits_of
digits-iface f g v h = ground arith

set_ar_state :
    (f v : ℕ)
    → f < 2 ^ 32
    → set_masked 0x600000 21 v f + f / 2097152 % 4 * 2097152 ≡ f + v % 4 * 2097152
unfolding set_masked
set_ar_state f v h = omega (
  arith,
  replace_bits 32 f (v * 2097152) 0x600000 (omega arith) (omega arith),
  bit_and-mask 21 2 f,
  bit_and-mask 21 2 (v * 2097152),
)

digits-ar_state :
    (f g v : ℕ)
    → g + f / 2097152 % 4 * 2097152 ≡ f + v % 4 * 2097152
    → digits_of g ≡ record (digits_of f) { ar_state = v % 2 ^ 2 }
unfolding digits_of
digits-ar_state f g v h = ground arith

set_cid :
    (f v : ℕ)
    → f < 2 ^ 32
    → set_masked 0x0f000000 24 v f + f / 16777216 % 16 * 16777216 ≡ f + v % 16 * 16777216
unfolding set_masked
set_cid f v h = omega (
  arith,
  replace_bits 32 f (v * 16777216) 0x0f000000 (omega arith) (omega arith),
  bit_and-mask 24 4 f,
  bit_and-mask 24 4 (v * 16777216),
)

digits-cid :
    (f g v : ℕ)
    → g + f / 16777216 % 16 * 16777216 ≡ f + v % 16 * 16777216
    → digits_of g ≡ record (digits_of f) { cid = v % 2 ^ 4 }
unfolding digits_of
digits-cid f g v h = ground arith

digits-is_router :
    (f g : ℕ)
    → g + f / 32768 % 2 * 32768 ≡ f + 32768
    → digits_of g ≡ record (digits_of f) { is_router = true }
unfolding digits_of
digits-is_router f g h = ground arith

digits-use_for_comp :
    (f g : ℕ)
    → g + f / 8388608 % 2 * 8388608 ≡ f + 8388608
    → digits_of g ≡ record (digits_of f) { use_for_comp = true }
unfolding digits_of
digits-use_for_comp f g h = ground arith

set_flag_router : (f : ℕ) → bit_or f is_router_flag + f / 32768 % 2 * 32768 ≡ f + 32768
set_flag_router f = omega (arith, set_bits f f is_router_flag (omega arith), bit_and-mask 15 1 f)

set_flag_comp : (f : ℕ) → bit_or f use_for_comp_flag + f / 8388608 % 2 * 8388608 ≡ f + 8388608
set_flag_comp f = omega (arith, set_bits f f use_for_comp_flag (omega arith), bit_and-mask 23 1 f)

digits-assign_flags :
    (a : Assignment) (f : ℕ)
    → f < 2 ^ 32
    → digits_of (assign_flags a f) ≡ assign_field a (digits_of f)
unfolding assign_flags assign_field
digits-assign_flags (Assignment.to_pfx_len v) f h = digits-pfx_len f _ v (set_pfx_len f v h)
digits-assign_flags (Assignment.to_l2addr_len v) f h =
    digits-l2addr_len f _ v (set_l2addr_len f v h)
digits-assign_flags (Assignment.to_nud_state v) f h = digits-nud_state f _ v (set_nud_state f v h)
digits-assign_flags (Assignment.to_iface v) f h = digits-iface f _ v (set_iface f v h)
digits-assign_flags (Assignment.to_ar_state v) f h = digits-ar_state f _ v (set_ar_state f v h)
digits-assign_flags (Assignment.to_cid v) f h = digits-cid f _ v (set_cid f v h)
digits-assign_flags Assignment.to_is_router f h = digits-is_router f _ (set_flag_router f)
digits-assign_flags Assignment.to_use_for_comp f h = digits-use_for_comp f _ (set_flag_comp f)

-- The word stays a word of 32 bits.
assign_flags-lt : (a : Assignment) (f : ℕ) → f < 2 ^ 32 → assign_flags a f < 2 ^ 32
unfolding assign_flags
assign_flags-lt (Assignment.to_pfx_len v) f h = omega (arith, set_pfx_len f v h)
assign_flags-lt (Assignment.to_l2addr_len v) f h = omega (arith, set_l2addr_len f v h)
assign_flags-lt (Assignment.to_nud_state v) f h = omega (arith, set_nud_state f v h)
assign_flags-lt (Assignment.to_iface v) f h = omega (arith, set_iface f v h)
assign_flags-lt (Assignment.to_ar_state v) f h = omega (arith, set_ar_state f v h)
assign_flags-lt (Assignment.to_cid v) f h = omega (arith, set_cid f v h)
assign_flags-lt Assignment.to_is_router f h = omega (arith, set_flag_router f)
assign_flags-lt Assignment.to_use_for_comp f h = omega (arith, set_flag_comp f)

digits-run_flags :
    (as' : List Assignment) (f : ℕ)
    → f < 2 ^ 32
    → digits_of (run_flags as' f) ≡ run_fields as' (digits_of f)
unfolding run_flags run_fields
digits-run_flags [] f h = refl
digits-run_flags (a ∷ as') f h =
    digits-run_flags as' (assign_flags a f) (assign_flags-lt a f h)
    ∙ ap (run_fields as') (digits-assign_flags a f h)

-- After any assignments to a word of 32 bits, what the masks and shifts of macro/main.c read from
-- the word are the values that the bit field of bitfield/main.c holds after the same assignments,
-- if it held what was read before them: a value is cut to the width of its field, and no assignment
-- changes another field.
pub read_flags-run_flags :
    (as' : List Assignment) (flags : ℕ)
    → flags < 2 ^ 32
    → read_flags (run_flags as' flags) ≡ run_fields as' (read_flags flags)
read_flags-run_flags as' flags h =
    rw (read_flags-digits (run_flags as' flags), read_flags-digits flags)
      (digits-run_flags as' flags h)
