-- ===== src/KvmSlot/Refusal.antt =====
-- When the slot pool refuses, and what a refusal leaves behind.
use nvkvm_pv.Base.{
  ℕ, ◌-◌, ◌≡◌, ◌≢◌, ◌↔◌, refl, true, false, Option, none, some, List, [], ◌∷◌, ◌⊎◌, inl, inr, arith,
  update,
}
use nvkvm_pv.Base.Results.{Result, ok, err}
use nvkvm_pv.KvmSlot.{
  ℤ, pos, negsuc, Pool, slot_base, slot_count, in_pool, alloc, release, reject, add_region,
  add_taken,
}
use nvkvm_pv.KvmSlot.Inv.{IsValid, length-free_stack_lt, alloc-IsValid, release-IsValid}
use nvkvm_pv.KvmSlot.Calls.{alloc_gives}

alloc-none_of :
    (fs : List ℕ) (p : Pool)
    → p.free_stack ≡ fs
    → IsValid p
    → ((alloc p).0 ≡ none) ↔ (p.in_use ≡ slot_count)
unfolding alloc
alloc-none_of [] p e v = (
  λ h. ground (arith, v.counted, v.live_in (p.water - slot_base), v.low, v.high),
  λ h. ground arith,
)
alloc-none_of (x ∷ rest) p e v = (λ h. ground (arith, v.free_in x), λ h. ground (arith, v.high))

-- A valid pool refuses an allocation exactly when all of its slots are in use.
pub alloc-none : (p : Pool) → IsValid p → ((alloc p).0 ≡ none) ↔ (p.in_use ≡ slot_count)
alloc-none p v = alloc-none_of p.free_stack p refl v

-- Releasing a slot that has just been released, or any number that is not a live slot, changes
-- nothing but the count of refusals.
release_twice : (p : Pool) (s : ℤ) → release (release p s) s ≡ reject (release p s)
unfolding release
release_twice p (negsuc n) = refl
release_twice p (pos s) = ground arith

-- The slot released last is the next one handed out, and the pool is as live as before.
alloc-release :
    (p : Pool) (s : ℕ)
    → IsValid p
    → in_pool (pos s) ≡ true
    → p.live (s - slot_base) ≡ true
    → ((alloc (release p (pos s))).0 ≡ some s)
      × ((i : ℕ) → (alloc (release p (pos s))).1.live i ≡ p.live i)
unfolding alloc release
alloc-release p s v h l = (
  ground (arith, length-free_stack_lt p (s - slot_base) v l),
  λ i. ground (arith, length-free_stack_lt p (s - slot_base) v l),
)

-- What an installation leaves: a slot that was not live and is now, or the live bits of before.
abbrev pub Installed : Pool → Result (Option ℕ) × Pool → Type 0
Installed p (r, q) =
    IsValid q
    × (((s : ℕ) × (r ≡ ok (some s))
          × (p.live (s - slot_base) ≡ false)
          × ((i : ℕ) → q.live i ≡ update p.live (s - slot_base) true i))
        ⊎ (((s : ℕ) → r ≢ ok (some s)) × ((i : ℕ) → q.live i ≡ p.live i)))

live-alloc-none_of :
    (fs : List ℕ) (p : Pool)
    → p.free_stack ≡ fs
    → IsValid p
    → (alloc p).0 ≡ none
    → (i : ℕ) → (alloc p).1.live i ≡ p.live i
unfolding alloc
live-alloc-none_of [] p e v h i = ground arith
live-alloc-none_of (x ∷ rest) p e v h i = ground (arith, v.free_in x, v.high)

-- What `alloc` has done when `add_region` goes on.
abbrev Taken : Pool → Option ℕ × Pool → Type 0
Taken p (none, q) = (i : ℕ) → q.live i ≡ p.live i
Taken p (some s, q) =
    (in_pool (pos s) ≡ true)
    × (p.live (s - slot_base) ≡ false)
    × ((i : ℕ) → q.live i ≡ update p.live (s - slot_base) true i)

live-release :
    (p q : Pool) (s : ℕ) → Taken p (some s, q) → (i : ℕ) → (release q (pos s)).live i ≡ p.live i
unfolding release
live-release p q s t i = ground (arith, t.2 i, t.2 (s - slot_base))

add_taken-Installed :
    (p : Pool) (installed : Option (Result (Unit {0}))) (o : Option ℕ) (q : Pool)
    → IsValid q
    → Taken p (o, q)
    → Installed p (add_taken installed (o, q))
unfolding add_taken
add_taken-Installed p installed none q v t = (v, inr (λ s h. ground arith, t))
add_taken-Installed p none (some s) q v t =
    (release-IsValid q (pos s) v, inr (λ n h. ground arith, live-release p q s t))
add_taken-Installed p (some (err n)) (some s) q v t =
    (release-IsValid q (pos s) v, inr (λ n h. ground arith, live-release p q s t))
add_taken-Installed p (some (ok u)) (some s) q v t = (v, inl (s, refl, t.1, t.2))

alloc-Taken : (p : Pool) (o : Option ℕ) → IsValid p → (alloc p).0 ≡ o → Taken p (o, (alloc p).1)
alloc-Taken p none v e = live-alloc-none_of p.free_stack p refl v e
alloc-Taken p (some s) v e = alloc_gives p s v e

-- Whatever the ioctl answers, `kvm_add_memory_region` keeps the pool valid. It either returns a
-- slot that was not live and is now, all other live bits as before, or it returns no slot and
-- leaves every live bit as it was: a failed installation leaks no slot.
pub add_region-Installed :
    (p : Pool) (installed : Option (Result (Unit {0})))
    → IsValid p
    → Installed p (add_region installed p)
unfolding add_region
add_region-Installed p installed v =
    add_taken-Installed p installed (alloc p).0 (alloc p).1 (alloc-IsValid p v)
      (alloc-Taken p (alloc p).0 v refl)
