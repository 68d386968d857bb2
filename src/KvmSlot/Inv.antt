-- ===== src/KvmSlot/Inv.antt =====
-- The invariant of the pool of KVM memory slots: free list, live bits, watermark and counters.
use nvkvm_pv.Base.{
  ℕ, ◌+◌, ◌-◌, ◌^◌, ◌≤◌, ◌<◌, ◌≡◌, refl, sym, true, false, List, [], ◌∷◌, arith, length, contains,
  Distinct, count_set, count_set-none, count_set-update-true, count_set-update-false,
}
use nvkvm_pv.KvmSlot.{u64, ℤ, pos, negsuc, Pool, slot_base, slot_count, init, alloc, release}

pub record IsValid (p : Pool) : Type 0 where
  pub low : slot_base ≤ p.water
  pub high : p.water ≤ slot_base + slot_count
  pub counted : p.in_use + length p.free_stack + slot_base ≡ p.water
  pub live_count : p.in_use ≡ count_set slot_count p.live
  pub balance : p.alloc_count ≡ u64 (p.in_use + p.free_count)
  pub peaked : p.in_use ≤ p.in_use_peak
  pub rejects_fit : p.reject_count < 2 ^ 64
  pub distinct : Distinct p.free_stack
  pub free_in :
      (s : ℕ)
      → contains p.free_stack s ≡ true
      → (slot_base ≤ s) × (s < p.water) × (p.live (s - slot_base) ≡ false)
  pub live_in : (i : ℕ) → p.live i ≡ true → i + slot_base < p.water
  pub covered :
      (s : ℕ)
      → slot_base ≤ s
      → s < p.water
      → p.live (s - slot_base) ≡ false
      → contains p.free_stack s ≡ true

pub init-IsValid : IsValid init
unfolding init
init-IsValid = record {
  low = omega arith;
  high = omega arith;
  counted = refl;
  live_count = sym (count_set-none slot_count);
  balance = refl;
  peaked = omega arith;
  rejects_fit = omega arith;
  distinct = tt;
  free_in = λ s h. ground arith;
  live_in = λ i h. ground arith;
  covered = λ s h k l. ground arith;
}

alloc_free-IsValid :
    (p : Pool) (x : ℕ) (rest : List ℕ) → p.free_stack ≡ x ∷ rest → IsValid p → IsValid (alloc p).1
unfolding alloc
alloc_free-IsValid p x rest e v = record {
  low = ground (arith, v.free_in x);
  high = ground (arith, v.free_in x);
  counted = ground (arith, v.free_in x);
  live_count = ground (arith, v.free_in x, count_set-update-true slot_count (x - slot_base) p.live);
  balance = ground (arith, v.free_in x, v.balance);
  peaked = ground (arith, v.free_in x, v.peaked);
  rejects_fit = ground (arith, v.free_in x, v.rejects_fit);
  distinct = ground (arith, v.free_in x);
  free_in = λ s h. ground (arith, v.free_in x, v.free_in s);
  live_in = λ i h. ground (arith, v.free_in x, v.live_in i);
  covered = λ s h k l. ground (arith, v.free_in x, v.covered s);
}

alloc_water-IsValid : (p : Pool) → p.free_stack ≡ [] → IsValid p → IsValid (alloc p).1
unfolding alloc
alloc_water-IsValid p e v = record {
  low = ground (arith, v.live_in (p.water - slot_base));
  high = ground (arith, v.live_in (p.water - slot_base));
  counted = ground (arith, v.live_in (p.water - slot_base));
  live_count = ground (
    arith,
    v.live_in (p.water - slot_base),
    count_set-update-true slot_count (p.water - slot_base) p.live,
  );
  balance = ground (arith, v.live_in (p.water - slot_base), v.balance);
  peaked = ground (arith, v.live_in (p.water - slot_base), v.peaked);
  rejects_fit = ground (arith, v.live_in (p.water - slot_base), v.rejects_fit);
  distinct = ground (arith, v.live_in (p.water - slot_base));
  free_in = λ s h. ground (arith, v.live_in (p.water - slot_base), v.free_in s);
  live_in = λ i h. ground (arith, v.live_in (p.water - slot_base), v.live_in i);
  covered = λ s h k l. ground (arith, v.live_in (p.water - slot_base), v.covered s);
}

alloc-IsValid_of : (fs : List ℕ) (p : Pool) → p.free_stack ≡ fs → IsValid p → IsValid (alloc p).1
alloc-IsValid_of [] p e v = alloc_water-IsValid p e v
alloc-IsValid_of (x ∷ rest) p e v = alloc_free-IsValid p x rest e v

pub alloc-IsValid : (p : Pool) → IsValid p → IsValid (alloc p).1
alloc-IsValid p v = alloc-IsValid_of p.free_stack p refl v

pub release-IsValid : (p : Pool) (s : ℤ) → IsValid p → IsValid (release p s)
unfolding release
release-IsValid p (negsuc n) v = record {
  low = v.low;
  high = v.high;
  counted = v.counted;
  live_count = v.live_count;
  balance = v.balance;
  peaked = v.peaked;
  rejects_fit = omega arith;
  distinct = v.distinct;
  free_in = v.free_in;
  live_in = v.live_in;
  covered = v.covered;
}
release-IsValid p (pos x) v = record {
  low = ground (arith, v.live_in (x - slot_base));
  high = ground (arith, v.live_in (x - slot_base));
  counted =
      ground (
        arith,
        v.live_in (x - slot_base),
        count_set-update-false slot_count (x - slot_base) p.live,
      );
  live_count =
      ground (
        arith,
        v.live_in (x - slot_base),
        count_set-update-false slot_count (x - slot_base) p.live,
      );
  balance = ground (
    arith,
    v.live_in (x - slot_base),
    count_set-update-false slot_count (x - slot_base) p.live,
    v.live_count,
    v.balance,
  );
  peaked = ground (arith, v.live_in (x - slot_base), v.peaked);
  rejects_fit = ground (arith, v.live_in (x - slot_base), v.rejects_fit);
  distinct = ground (arith, v.live_in (x - slot_base), v.free_in x);
  free_in = λ s h. ground (arith, v.live_in (x - slot_base), v.free_in s);
  live_in = λ i h. ground (arith, v.live_in (x - slot_base), v.live_in i);
  covered = λ s h k l. ground (
    arith,
    v.live_in (x - slot_base),
    v.covered s,
    count_set-update-false slot_count (x - slot_base) p.live,
  );
}

-- While a slot is live, the free list has room.
pub length-free_stack_lt :
    (p : Pool) (i : ℕ) → IsValid p → p.live i ≡ true → length p.free_stack < slot_count
length-free_stack_lt p i v l = omega (
  arith,
  v.high,
  v.counted,
  v.live_count,
  v.live_in i l,
  count_set-update-false slot_count i p.live (omega (arith, v.live_in i l, v.high)) l,
)
