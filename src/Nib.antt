-- ===== src/Nib.antt =====
-- bitfield_test: the entry of a table of neighbours, once with the fields of a C bit field
-- (bitfield/main.c), once packed into a word by masks and shifts (macro/main.c). The two programs
-- assign the same values and print them; the addresses in the entry are not used there.
pub mod Refinement
mod Tests
use Prim.Native.Nat.{bit_and, bit_or}
use riot_playground.Common.{
  ℕ, ◌-◌, ◌*◌, ◌/◌, ◌%◌, ◌^◌, List, [], ◌∷◌, Bool, true, false, not, ◌==◌, if◌then◌else◌,
}

-- The members of a bit field keep the lowest bits of what is assigned.
pub record Fields : Type 0 where
  pub pfx_len : ℕ
  pub l2addr_len : ℕ
  pub nud_state : ℕ
  pub is_router : Bool
  pub iface : ℕ
  pub ar_state : ℕ
  pub use_for_comp : Bool
  pub cid : ℕ

-- The assignments that both programs make; the two flags are only set.
pub data Assignment : Type 0 where
  to_pfx_len to_l2addr_len to_nud_state to_iface to_ar_state to_cid : ℕ → Assignment
  to_is_router to_use_for_comp : Assignment

abbrev pub stale : ℕ
stale = 3

abbrev pub tentative : ℕ
tentative = 2

unfoldable pub assign_field : Assignment → Fields → Fields
assign_field (to_pfx_len v) e = record e { pfx_len = v % 2 ^ 8 }
assign_field (to_l2addr_len v) e = record e { l2addr_len = v % 2 ^ 4 }
assign_field (to_nud_state v) e = record e { nud_state = v % 2 ^ 3 }
assign_field (to_iface v) e = record e { iface = v % 2 ^ 5 }
assign_field (to_ar_state v) e = record e { ar_state = v % 2 ^ 2 }
assign_field (to_cid v) e = record e { cid = v % 2 ^ 4 }
assign_field to_is_router e = record e { is_router = true }
assign_field to_use_for_comp e = record e { use_for_comp = true }

-- `flags &= ~mask; flags |= (v << pos) & mask`, on a word of 32 bits. The mask cuts off what a
-- shift moves past the end of a word.
unfoldable pub set_masked : ℕ → ℕ → ℕ → ℕ → ℕ
set_masked mask pos v flags =
    bit_or (bit_and flags (0xffffffff - mask)) (bit_and (v * 2 ^ pos) mask)

-- `(flags & mask) >> pos`
unfoldable pub get_masked : ℕ → ℕ → ℕ → ℕ
get_masked mask pos flags = bit_and flags mask / 2 ^ pos

-- `(bool)(flags & mask)`
unfoldable pub has_flag : ℕ → ℕ → Bool
has_flag mask flags = not (bit_and flags mask == 0)

abbrev pub is_router_flag : ℕ
is_router_flag = 0x00008000

abbrev pub use_for_comp_flag : ℕ
use_for_comp_flag = 0x00800000

unfoldable pub assign_flags : Assignment → ℕ → ℕ
unfolding set_masked
assign_flags (to_pfx_len v) flags = set_masked 0x000000ff 0 v flags
assign_flags (to_l2addr_len v) flags = set_masked 0x00000f00 8 v flags
assign_flags (to_nud_state v) flags = set_masked 0x00007000 12 v flags
assign_flags (to_iface v) flags = set_masked 0x001f0000 16 v flags
assign_flags (to_ar_state v) flags = set_masked 0x00600000 21 v flags
assign_flags (to_cid v) flags = set_masked 0x0f000000 24 v flags
assign_flags to_is_router flags = bit_or flags is_router_flag
assign_flags to_use_for_comp flags = bit_or flags use_for_comp_flag

-- What macro/main.c reads for each of its lines.
unfoldable pub read_flags : ℕ → Fields
unfolding get_masked has_flag
read_flags flags = record {
  pfx_len = get_masked 0x000000ff 0 flags;
  l2addr_len = get_masked 0x00000f00 8 flags;
  nud_state = get_masked 0x00007000 12 flags;
  is_router = has_flag is_router_flag flags;
  iface = get_masked 0x001f0000 16 flags;
  ar_state = get_masked 0x00600000 21 flags;
  use_for_comp = has_flag use_for_comp_flag flags;
  cid = get_masked 0x0f000000 24 flags;
}

abbrev pub bit_of : Bool → ℕ
bit_of b = if b then 1 else 0

-- The numbers that bitfield/main.c prints.
unfoldable pub print_fields : Fields → List ℕ
print_fields e =
    e.pfx_len
    ∷ e.l2addr_len
    ∷ e.nud_state
    ∷ bit_of e.is_router
    ∷ e.iface
    ∷ e.ar_state
    ∷ bit_of e.use_for_comp
    ∷ e.cid
    ∷ []

unfoldable pub run_fields : List Assignment → Fields → Fields
unfolding assign_field
run_fields [] e = e
run_fields (a ∷ as') e = run_fields as' (assign_field a e)

unfoldable pub run_flags : List Assignment → ℕ → ℕ
unfolding assign_flags
run_flags [] flags = flags
run_flags (a ∷ as') flags = run_flags as' (assign_flags a flags)

-- The assignments of both `main`s, in order.
abbrev pub assignments : List Assignment
assignments =
    to_pfx_len 45
    ∷ to_l2addr_len 3
    ∷ to_nud_state stale
    ∷ to_is_router
    ∷ to_iface 5
    ∷ to_ar_state tentative
    ∷ to_use_for_comp
    ∷ to_cid 0x6
    ∷ []

abbrev pub cleared : Fields
cleared = record {
  pfx_len = 0;
  l2addr_len = 0;
  nud_state = 0;
  is_router = false;
  iface = 0;
  ar_state = 0;
  use_for_comp = false;
  cid = 0;
}

-- What the two programs print; their entries are static, and so start at 0.
unfoldable pub bitfield_main : List ℕ
unfolding run_fields print_fields
bitfield_main = print_fields (run_fields assignments cleared)

unfoldable pub macro_main : List ℕ
unfolding run_flags read_flags print_fields
macro_main = print_fields (read_flags (run_flags assignments 0))
