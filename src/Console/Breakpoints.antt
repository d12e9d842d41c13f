-- ===== src/Console/Breakpoints.antt =====
-- The breakpoints (`BreakpointManager` of src/main.rs). The hash map is an association list.
use riapyx.Common.{ℕ, ◌+◌, ◌==◌, ◌&&◌, if◌then◌else◌, u32, Option, none, some, List, [], ◌∷◌}

-- A number and the next one are an `i32`, here as its 32 bits.
pub record BreakpointManager : Type 0 where
  pub next : ℕ
  pub addr_bkpt : List ((ℕ × ℕ) × ℕ)

-- `HashMap::insert` and `HashMap::get`.
unfoldable pub insert : ℕ → ℕ → ℕ → List ((ℕ × ℕ) × ℕ) → List ((ℕ × ℕ) × ℕ)
insert seg addr bkpt [] = ((seg, addr), bkpt) ∷ []
insert seg addr bkpt (((s, a), old) ∷ rest) =
    if s == seg && a == addr
    then ((seg, addr), bkpt) ∷ rest
    else ((s, a), old) ∷ insert seg addr bkpt rest

unfoldable pub lookup : ℕ → ℕ → List ((ℕ × ℕ) × ℕ) → Option ℕ
lookup seg addr [] = none
lookup seg addr (((s, a), bkpt) ∷ rest) =
    if s == seg && a == addr then some bkpt else lookup seg addr rest

abbrev pub no_breakpoints : BreakpointManager
no_breakpoints = record { next = 0; addr_bkpt = [] }

unfoldable pub add_breakpoint : ℕ → ℕ → BreakpointManager → BreakpointManager
unfolding insert
add_breakpoint seg addr bpm = record {
  next = u32 (bpm.next + 1);
  addr_bkpt = insert seg addr bpm.next bpm.addr_bkpt;
}

unfoldable pub get_breakpoint : ℕ → ℕ → BreakpointManager → Option ℕ
unfolding lookup
get_breakpoint seg addr bpm = lookup seg addr bpm.addr_bkpt
