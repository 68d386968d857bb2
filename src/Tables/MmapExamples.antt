-- ===== src/Tables/MmapExamples.antt =====
-- Free regions and mappings at concrete inputs.
use nvkvm_pv.Base.{
  ℕ, ◌≤◌, ◌≡◌, refl, true, false, [], ◌∷◌, arith, update, sum_below-zero, ◌+◌, ◌^◌, ◌∙◌, sym, subst,
  Bool-cases, inl, inr, ◌==◌, ==-true,
}
use nvkvm_pv.Base.Results.{ok}
use nvkvm_pv.Tables.Ids.{search}
use nvkvm_pv.Tables.RegionLaws.{IsApart, covered}
use nvkvm_pv.Tables.Handles.{Handles, handles_init, no_handle, handle_lookup}
use nvkvm_pv.Tables.Regions.{Region, take_region}
use nvkvm_pv.Tables.Mmaps.{
  GpaWindow, Mappings, no_mmap, max_mmaps, windows_take, place_mmap, record_mmap, mmap_alloc,
}
use nvkvm_pv.Tables.MmapInv.{IsValid, holds, held}
use nvkvm_pv.Tables.MmapCalls.{allocs, frees, calls, calls-IsValid}

abbrev region : ℕ → ℕ → Region
region off size = record { offset = off; size = size }

abbrev no_window : GpaWindow
no_window = record { in_use = false; window_id = 0; gpa_base = 0; size = 0; qva = 0; free = [] }

-- Window 1 of 64 KiB, all free.
abbrev empty : Mappings
empty = record {
  windows =
      update (λ i. no_window) 1
        (record {
          in_use = true;
          window_id = 4097;
          gpa_base = 1099511627776;
          size = 65536;
          qva = 281474976710656;
          free = region 0 65536 ∷ [];
        });
  slots = λ s. no_mmap;
  generation = λ s. 0;
  next_slot = 1;
  holes = [];
}

-- A test on window 1 serves for every window in use.
in_window :
    (P : GpaWindow → Type 0) (i : ℕ)
    → (empty.windows i).in_use ≡ true
    → P (empty.windows 1)
    → P (empty.windows i)
in_window P i u h = elim (Bool-cases (1 == i)) [
  | inl b ↦ subst (λ (k : ℕ). P (empty.windows k)) (==-true 1 i b) h
  | inr b ↦ let q : false ≡ true = rw b at u in cc
]

only_window : (i : ℕ) → (empty.windows i).in_use ≡ true → i ≡ 1
only_window i u = elim (Bool-cases (1 == i)) [
  | inl b ↦ omega (arith, ==-true 1 i b)
  | inr b ↦ let q : false ≡ true = rw b at u in cc
]

empty-IsValid : IsValid empty
empty-IsValid = record {
  next = (omega arith, omega arith);
  distinct = λ i j n u v e. n (only_window i u ∙ sym (only_window j v));
  small = λ i u. in_window (λ (w : GpaWindow). w.size ≤ 2 ^ 62) i u (omega arith);
  apart = λ i u.
      in_window (λ (w : GpaWindow). IsApart 0 w.size w.free) i u
        ((omega arith, omega arith, omega arith, refl, refl), tt);
  once = λ i u b.
      in_window (λ (w : GpaWindow). covered b w.free + held empty.slots w.window_id b ≤ 1) i u
        (ground (arith, sum_below-zero (holds 4097 b) max_mmaps empty.slots (λ k. refl)));
  inside = λ i s u. cc;
}

abbrev handles : Handles
handles = record handles_init {
  slots =
      update handles_init.slots 1
        (record no_handle { in_use = true; handle_id = 4097; kind = 1; ready = true });
}

-- A mapping of 5000 bytes takes two pages of the window, and comes to an end.
calls-IsValid_example :
    IsValid (calls (allocs true handles 4097 0 5000 3 ∷ frees true 4097 ∷ []) empty)
calls-IsValid_example =
    calls-IsValid (allocs true handles 4097 0 5000 3 ∷ frees true 4097 ∷ []) empty
      (omega arith, (tt, tt)) empty-IsValid

two_pages : (mmap_alloc true handles empty 4097 0 5000 3).0 ≡ ok (1099511627776, 4097)
unfolding mmap_alloc handle_lookup windows_take take_region place_mmap record_mmap search
two_pages = refl

-- A mapping in slot 4097, whose id names slot 1.
abbrev crowded : Mappings
crowded = record empty {
  slots = update empty.slots 4097 (record no_mmap {
    in_use = true;
    mmap_id = 4097;
    handle_id = 4097;
    size = 4096;
    window_id = 4097;
  });
}
