-- ===== src/KvmSlot/Calls.antt =====
-- Runs of the slot pool.
use nvkvm_pv.Base.{
  ℕ, ◌+◌, ◌-◌, ◌≤◌, ◌≡◌, refl, Bool, true, false, not, ◌||◌, if◌then◌else◌, ltb, some, List, [],
  ◌∷◌, arith, update,
}
use nvkvm_pv.KvmSlot.{
  u64, pos, negsuc, Pool, slot_base, Call, allocs, releases, init, in_pool, alloc, release, step,
  run,
}
use nvkvm_pv.KvmSlot.Inv.{
  IsValid, init-IsValid, alloc-IsValid, release-IsValid, length-free_stack_lt,
}

pub run-IsValid_from : (cs : List Call) (p : Pool) → IsValid p → IsValid (run p cs)
unfolding run step
run-IsValid_from [] p v = v
run-IsValid_from (allocs ∷ cs) p v = run-IsValid_from cs (alloc p).1 (alloc-IsValid p v)
run-IsValid_from (releases s ∷ cs) p v = run-IsValid_from cs (release p s) (release-IsValid p s v)

-- The most slots that are in use at one time of a run.
abbrev pub highest : Pool → List Call → ℕ
highest p [] = p.in_use
highest p (c ∷ cs) =
    let rest = highest (step p c) cs in if ltb p.in_use rest then rest else p.in_use

-- How many calls of a run release a number that is not a slot in use.
abbrev pub is_refused : Pool → Call → Bool
is_refused p allocs = false
is_refused p (releases (negsuc n)) = true
is_refused p (releases (pos s)) = not (in_pool (pos s)) || not (p.live (s - slot_base))

abbrev pub refusals : Pool → List Call → ℕ
refusals p [] = 0
refusals p (c ∷ cs) = (if is_refused p c then 1 else 0) + refusals (step p c) cs

alloc-peak_of :
    (fs : List ℕ) (p : Pool)
    → p.free_stack ≡ fs
    → IsValid p
    → ((alloc p).1.in_use_peak
        ≡ (if ltb p.in_use_peak (alloc p).1.in_use then (alloc p).1.in_use else p.in_use_peak))
      × ((alloc p).1.reject_count ≡ p.reject_count)
unfolding alloc
alloc-peak_of [] p e v = (
  ground (arith, v.live_in (p.water - slot_base), v.low, v.high, v.peaked),
  ground (arith, v.live_in (p.water - slot_base), v.low, v.high),
)
alloc-peak_of (x ∷ rest) p e v =
    (ground (arith, v.free_in x, v.high, v.peaked), ground (arith, v.free_in x, v.high))

step-peak :
    (c : Call) (p : Pool)
    → IsValid p
    → (step p c).in_use_peak
      ≡ (if ltb p.in_use_peak (step p c).in_use then (step p c).in_use else p.in_use_peak)
unfolding step release
step-peak allocs p v = (alloc-peak_of p.free_stack p refl v).0
step-peak (releases (negsuc n)) p v = ground (arith, v.peaked)
step-peak (releases (pos s)) p v = ground (arith, v.peaked)

step-rejects :
    (c : Call) (p : Pool)
    → IsValid p
    → (step p c).reject_count ≡ u64 (p.reject_count + (if is_refused p c then 1 else 0))
unfolding step release
step-rejects allocs p v = omega (arith, (alloc-peak_of p.free_stack p refl v).1, v.rejects_fit)
step-rejects (releases (negsuc n)) p v = refl
step-rejects (releases (pos s)) p v =
    ground (arith, v.rejects_fit, length-free_stack_lt p (s - slot_base) v)

step-IsValid : (c : Call) (p : Pool) → IsValid p → IsValid (step p c)
unfolding step
step-IsValid allocs p v = alloc-IsValid p v
step-IsValid (releases s) p v = release-IsValid p s v

in_use-le-highest : (p : Pool) (cs : List Call) → p.in_use ≤ highest p cs
in_use-le-highest p [] = omega arith
in_use-le-highest p (c ∷ cs) = ground arith

run-peak :
    (cs : List Call) (p : Pool)
    → IsValid p
    → (run p cs).in_use_peak
      ≡ (if ltb p.in_use_peak (highest p cs) then highest p cs else p.in_use_peak)
unfolding run
run-peak [] p v = ground (arith, v.peaked)
run-peak (c ∷ cs) p v = ground (
  arith,
  v.peaked,
  step-peak c p v,
  in_use-le-highest (step p c) cs,
  run-peak cs (step p c) (step-IsValid c p v),
)

run-rejects :
    (cs : List Call) (p : Pool)
    → IsValid p
    → (run p cs).reject_count ≡ u64 (p.reject_count + refusals p cs)
unfolding run
run-rejects [] p v = omega (arith, v.rejects_fit)
run-rejects (c ∷ cs) p v =
    omega (arith, step-rejects c p v, run-rejects cs (step p c) (step-IsValid c p v))

-- After any sequence of allocations and releases, the releases of any number included, the
-- free list holds each slot at most once and none that is live, every slot below the watermark is
-- live or free, `in_use` is the number of live slots, up to wraps at 2^64 `alloc_count` is the sum
-- of `in_use` and `free_count` and `reject_count` the number of releases of what was not a slot in
-- use, and `in_use_peak` is the most slots that were in use at one time.
pub run-IsValid :
    (cs : List Call)
    → IsValid (run init cs)
      × ((run init cs).in_use_peak ≡ highest init cs)
      × ((run init cs).reject_count ≡ u64 (refusals init cs))
unfolding init
run-IsValid cs = (
  run-IsValid_from cs init init-IsValid,
  ground (arith, run-peak cs init init-IsValid),
  omega (arith, run-rejects cs init init-IsValid),
)

alloc_gives_of :
    (fs : List ℕ) (p : Pool) (s : ℕ)
    → p.free_stack ≡ fs
    → IsValid p
    → (alloc p).0 ≡ some s
    → (in_pool (pos s) ≡ true)
      × (p.live (s - slot_base) ≡ false)
      × ((i : ℕ) → (alloc p).1.live i ≡ update p.live (s - slot_base) true i)
unfolding alloc
alloc_gives_of [] p s e v h = (ground (arith, v.low), ground arith, λ i. ground arith)
alloc_gives_of (x ∷ rest) p s e v h =
    (ground (arith, v.free_in x, v.high), ground (arith, v.free_in x), λ i. ground arith)

-- In a valid pool a slot that `alloc` hands out lies in the pool's range and was not live; it is
-- live afterwards, and no other live bit changes.
pub alloc_gives :
    (p : Pool) (s : ℕ)
    → IsValid p
    → (alloc p).0 ≡ some s
    → (in_pool (pos s) ≡ true)
      × (p.live (s - slot_base) ≡ false)
      × ((i : ℕ) → (alloc p).1.live i ≡ update p.live (s - slot_base) true i)
alloc_gives p s v h = alloc_gives_of p.free_stack p s refl v h
