-- ===== src/Sparse/Purge.antt =====
-- Device teardown and the quarantine.
use nvkvm_pv.Base.{
  ℕ, ◌+◌, ◌^◌, ◌≤◌, ◌<◌, ◌≡◌, ◌≢◌, refl, ap, false, List, [], ◌∷◌, ◌==◌, arith, if◌then◌else◌,
  length, inl, inr, Bool-cases, update, update_self, update_ne,
}
use nvkvm_pv.Sparse.Window.{Window}
use nvkvm_pv.Sparse.Quarantine.{Held, System, sub64, purge_from, sparse_fini}
use nvkvm_pv.Sparse.Hold.{Capped, bytes_of}

-- The entries of all devices but `nv`, in order.
abbrev pub others : ℕ → List Held → List Held
others nv [] = []
others nv (h ∷ q) = if h.nv == nv then others nv q else h ∷ others nv q

others-bytes_of : (nv : ℕ) (q : List Held) → bytes_of (others nv q) ≤ bytes_of q
others-bytes_of nv [] = omega arith
others-bytes_of nv (h ∷ q) = ground (arith, others-bytes_of nv q)

others-length : (nv : ℕ) (q : List Held) → length (others nv q) ≤ length q
others-length nv [] = omega arith
others-length nv (h ∷ q) = ground (arith, others-length nv q)

purge_from-others :
    (nv : ℕ) (q : List Held) (bytes kept : ℕ)
    → bytes ≡ kept + bytes_of q
    → bytes < 2 ^ 64
    → purge_from nv q bytes ≡ (others nv q, kept + bytes_of (others nv q))
unfolding purge_from
purge_from-others nv [] bytes kept e l = ground arith
purge_from-others nv (h ∷ q) bytes kept e l = elim (Bool-cases (h.nv == nv)) [
  | inl b ↦
      let n : sub64 bytes h.len ≡ kept + bytes_of q = omega arith in
      let i = purge_from-others nv q (sub64 bytes h.len) kept n (omega arith) in rw (b, i) refl
  | inr b ↦
      let i = purge_from-others nv q bytes (kept + h.len) (omega arith) l in
      rw (b, i) (ap (λ (x : ℕ). (h ∷ others nv q, x)) (omega arith))
]

-- The windows after a teardown of `nv`.
abbrev fini_windows : (ℕ → Window) → ℕ → ℕ → Window
fini_windows ws nv =
    if (ws nv).mapped then update ws nv (record (ws nv) { mapped = false; free = [] }) else ws

fini_window :
    (ws : ℕ → Window) (nv : ℕ)
    → ((fini_windows ws nv nv).mapped ≡ false) × ((d : ℕ) → nv ≢ d → fini_windows ws nv d ≡ ws d)
fini_window ws nv = elim (Bool-cases (ws nv).mapped) [
  | inl b ↦ rw b (ap (λ (w : Window). w.mapped) (update_self ws nv _), λ d n. update_ne ws nv _ d n)
  | inr b ↦ rw b (b, λ d n. refl)
]

-- What a teardown of device `nv` leaves of the quarantine.
pub record Purged (s : System) (nv : ℕ) (t : System) : Type 0 where
  pub left : t.quar ≡ others nv s.quar
  pub capped : Capped t
  pub unmapped : (t.windows nv).mapped ≡ false
  pub same_others : (d : ℕ) → nv ≢ d → t.windows d ≡ s.windows d

-- Teardown of a device removes exactly its own extents from the quarantine, keeps the others in
-- order and the count of bytes right, unmaps its window and leaves the windows of all other
-- devices.
pub sparse_fini-Purged : (s : System) (nv : ℕ) → Capped s → Purged s nv (sparse_fini s nv).0
unfolding sparse_fini
sparse_fini-Purged s nv c =
    let p =
      purge_from-others nv s.quar s.quar_bytes 0 (omega (arith, c.counted))
        (omega (arith, c.small)) in
    let b = others-bytes_of nv s.quar in
    let l = others-length nv s.quar in
    rw p (record {
      left = refl;
      capped = record {
        counted = omega arith;
        few = omega (arith, l, c.few);
        small = omega (arith, b, c.counted, c.small);
      };
      unmapped = (fini_window s.windows nv).0;
      same_others = (fini_window s.windows nv).1;
    })
