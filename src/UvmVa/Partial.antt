-- ===== src/UvmVa/Partial.antt =====
-- A free that names the start of a range and less than its length.
use nvkvm_pv.Base.{
  ℕ, zero, suc, ◌+◌, ◌%◌, ◌^◌, ◌≤◌, ◌<◌, ◌≡◌, refl, ◌∙◌, Bool, true, false, Option, none, some,
  arith, inl, inr, Bool-cases, update_ne,
}
use nvkvm_pv.UvmVa.Ranges.{
  VaEnt, Ranges, uvm_va_max, find_ent, is_covering, is_some, uvm_va_covers, uvm_va_sane, freed,
  free_all, is_within, uvm_va_drop,
}
use nvkvm_pv.UvmVa.Gate.{use_range, free, Outcome, uvm_check, recorded}
use nvkvm_pv.UvmVa.Owned.{Owns, find_ent-none}

free_all-keeps :
    (k i : ℕ) (test : VaEnt → Bool) (t : Ranges) (j : ℕ)
    → test (t.ent j) ≡ false
    → (free_all k i test t).ent j ≡ t.ent j
unfolding free_all
free_all-keeps zero i test t j h = refl
free_all-keeps (suc k) i test t j h = elim (Bool-cases (test (t.ent i))) [
  | inl b ↦
      let e : (freed t i).ent j ≡ t.ent j =
        update_ne t.ent i _ j (λ q. let x : test (t.ent j) ≡ true = rw q at b in cc) in
      rw (free_all, b) (free_all-keeps k (suc i) test (freed t i) j (rw e h) ∙ e)
  | inr b ↦ rw (free_all, b) (free_all-keeps k (suc i) test t j h)
]

Owns-covers :
    (t : Ranges) (handle base len b l : ℕ)
    → Owns t handle base len
    → base + len < 2 ^ 64
    → base ≤ b
    → b + l ≤ base + len
    → uvm_va_covers t handle b l ≡ true
unfolding uvm_va_covers
Owns-covers t handle base len b l o w x y =
    of (find_ent uvm_va_max 0 (is_covering handle b l) t.ent) refl
  where
    passes : is_covering handle b l (t.ent o.index) ≡ true
    passes =
        let q : t.ent o.index ≡ record { handle_id = handle; base = base; va_len = len } =
          ground (arith, o.matches) in
        rw q (ground arith)

    of :
        (f : Option ℕ) → find_ent uvm_va_max 0 (is_covering handle b l) t.ent ≡ f → is_some f ≡ true
    of (some i) e = refl
    of none e =
        let z =
          find_ent-none uvm_va_max 0 (is_covering handle b l) t.ent e o.index (omega arith)
            (omega (arith, o.in_table)) in
        cc (passes)

uvm_va_drop-keeps :
    (t : Ranges) (handle base len len' : ℕ)
    → Owns t handle base len
    → base + len < 2 ^ 64
    → len' < len
    → Owns (uvm_va_drop t handle base len') handle base len
unfolding uvm_va_drop
uvm_va_drop-keeps t handle base len len' o w x =
    let q : t.ent o.index ≡ record { handle_id = handle; base = base; va_len = len } =
      ground (arith, o.matches) in
    let n : is_within handle base len' (t.ent o.index) ≡ false = rw q (ground arith) in
    let e = free_all-keeps uvm_va_max 0 (is_within handle base len') t o.index n in
    record { index = o.index; in_table = o.in_table; matches = rw e o.matches }

uvm_va_sane-true :
    (base len : ℕ)
    → 1 ≤ len
    → base % 4096 ≡ 0
    → len % 4096 ≡ 0
    → base + len < 2 ^ 64
    → uvm_va_sane base len ≡ true
unfolding uvm_va_sane
uvm_va_sane-true base len a b c d = ground arith

-- Where a handle owns a range of whole pages, a free of its base with fewer pages goes to the driver,
-- and when it was accepted, a use of any pages of the range still goes to the driver.
pub partial_free :
    (t : Ranges) (handle base len len' b l : ℕ)
    → Owns t handle base len
    → base + len < 2 ^ 64
    → base % 4096 ≡ 0
    → 1 ≤ len'
    → len' < len
    → len' % 4096 ≡ 0
    → 1 ≤ l
    → b % 4096 ≡ 0
    → l % 4096 ≡ 0
    → base ≤ b
    → b + l ≤ base + len
    → (uvm_check t (record { handle_id = handle; mode = free; va_base = base; va_len = len' }) len'
        ≡ Outcome.forwarded base len')
      × (uvm_check
            (recorded t handle free base len')
            (record { handle_id = handle; mode = use_range; va_base = b; va_len = l })
            l
          ≡ Outcome.forwarded b l)
unfolding uvm_check recorded
partial_free t handle base len len' b l o w p x y z i j k m n =
    let s = uvm_va_sane-true base len' x p z (omega arith) in
    let c = Owns-covers t handle base len base len' o w (omega arith) (omega arith) in
    let r = uvm_va_sane-true b l i j k (omega arith) in
    let u = uvm_va_drop-keeps t handle base len len' o w y in
    let d = Owns-covers (uvm_va_drop t handle base len') handle base len b l u w m n in
    (ground (arith, s, c), ground (arith, r, d))
