-- ===== src/Sparse/Hold.antt =====
-- The quarantine between a free and the release of an extent.
use mathlib.Core.List.{append_assoc}
use nvkvm_pv.Base.{
  ℕ, ◌+◌, ◌-◌, ◌%◌, ◌^◌, ◌≤◌, ◌<◌, ◌≡◌, refl, ap, sym, subst, ◌∙◌, true, false, ◌||◌, List, [], ◌∷◌,
  ◌++◌, if◌then◌else◌, ◌==◌, arith, length, All, All-append, total, total-append, update, inl, inr,
  Bool-cases, ==-true, ==-false,
}
use nvkvm_pv.Sparse.Window.{Extent, Window, page_round_up, gpa_release}
use nvkvm_pv.Sparse.Quarantine.{
  Held, System, quar_max, quar_max_bytes, sub64, over_caps, drain, release_held, gpa_free,
}
use nvkvm_pv.Sparse.Cover.{IsValid}
use nvkvm_pv.Sparse.Release.{gpa_release-Returns}

abbrev pub bytes_of : List Held → ℕ
bytes_of q = total (λ h. h.len) q

-- What the loop leaves.
pub record Drained (q : List Held) (r : List Held × List Held × ℕ) : Type 0 where
  pub in_order : r.0 ++ r.1 ≡ q
  pub counted : r.2 ≡ bytes_of r.1
  pub under : over_caps r.1 r.2 ≡ false

pub drain-Drained :
    (q : List Held) (bytes : ℕ) → bytes ≡ bytes_of q → bytes < 2 ^ 64 → Drained q (drain q bytes)
unfolding drain
drain-Drained [] bytes e h = record { in_order = refl; counted = e; under = ground arith }
drain-Drained (x ∷ q) bytes e h = elim (Bool-cases (over_caps (x ∷ q) bytes)) [
  | inl b ↦
      let n : sub64 bytes x.len ≡ bytes_of q = omega arith in
      let r = drain-Drained q (sub64 bytes x.len) n (omega arith) in
      rw b (record { in_order = ap (◌∷◌ x) r.in_order; counted = r.counted; under = r.under })
  | inr b ↦ rw b (record { in_order = refl; counted = e; under = b })
]

-- The array is within its caps and its count of bytes is right.
pub record Capped (s : System) : Type 0 where
  pub counted : s.quar_bytes ≡ bytes_of s.quar
  pub few : length s.quar ≤ quar_max
  pub small : s.quar_bytes ≤ quar_max_bytes

over_caps-false :
    (q : List Held) (bytes : ℕ)
    → over_caps q bytes ≡ false
    → (length q ≤ quar_max) × (bytes ≤ quar_max_bytes)
over_caps-false q bytes h = ground arith

page_round_up-le : (size : ℕ) → size ≤ 2 ^ 62 → page_round_up size ≤ 2 ^ 63
unfolding page_round_up
page_round_up-le size l = ground arith

pub page_round_up-whole :
    (size : ℕ)
    → 1 ≤ size
    → size ≤ 2 ^ 62
    → (1 ≤ page_round_up size) × (page_round_up size % 4096 ≡ 0)
unfolding page_round_up
page_round_up-whole size a l = (ground arith, ground arith)

-- The loop of a free starts with the right count, which has not wrapped.
drain-held :
    (s : System) (h : Held)
    → h.len ≤ 2 ^ 63
    → Capped s
    → Drained (s.quar ++ h ∷ []) (drain (s.quar ++ h ∷ []) ((s.quar_bytes + h.len) % 2 ^ 64))
drain-held s h l c =
    drain-Drained (s.quar ++ h ∷ []) ((s.quar_bytes + h.len) % 2 ^ 64)
      (omega (arith, c.counted, c.small, total-append (λ (k : Held). k.len) s.quar (h ∷ [])))
      (omega arith)

-- Every free leaves at most 64 extents and 64 MiB in the quarantine, with the bytes counted
-- right, whatever was freed, if it left them so before and the size is at most 2^62.
pub gpa_free-Capped :
    (s : System) (nv gpa size : ℕ) → size ≤ 2 ^ 62 → Capped s → Capped (gpa_free s nv gpa size)
unfolding gpa_free
gpa_free-Capped s nv gpa size l c = elim (Bool-cases (size == 0 || page_round_up size == 0)) [
  | inl b ↦ rw b c
  | inr b ↦ rw b (
      let h : Held = record { nv = nv; gpa = gpa; len = page_round_up size } in
      let d = drain-held s h (page_round_up-le size l) c in
      let (f, m) = over_caps-false _ _ d.under in
      record { counted = d.counted; few = f; small = m })
]

-- The extents of device `d` among the entries.
abbrev pub extents_of : ℕ → ℕ → List Held → List Extent
extents_of d base [] = []
extents_of d base (h ∷ q) =
    if h.nv == d
    then record { off = h.gpa - base; len = h.len } ∷ extents_of d base q
    else extents_of d base q

extents_of-append :
    (d base : ℕ) (p q : List Held)
    → extents_of d base (p ++ q) ≡ extents_of d base p ++ extents_of d base q
extents_of-append d base [] q = refl
extents_of-append d base (h ∷ p) q = ground (arith, extents_of-append d base p q)

-- An entry of whole pages at or above the base of its window, if it is of device `d`.
abbrev pub Fair : ℕ → ℕ → Held → Type 0
Fair d base h = h.nv ≡ d → (base ≤ h.gpa) × (h.len % 4096 ≡ 0)

-- The window of `d` with what is given away and what its entries in the quarantine hold.
pub record Owns (ws : ℕ → Window) (q : List Held) (d : ℕ) (live : List Extent) : Type 0 where
  pub mapped : (ws d).mapped ≡ true
  pub fair : All (Fair d (ws d).gpa_base) q
  pub valid : IsValid (ws d) (extents_of d (ws d).gpa_base q ++ live)

-- Only the window of `d` matters.
Owns-window :
    (ws us : ℕ → Window) (q : List Held) (d : ℕ) (live : List Extent)
    → (us d ≡ ws d)
    → Owns ws q d live
    → Owns us q d live
Owns-window ws us q d live e o = record {
  mapped = rw e o.mapped;
  fair = rw e o.fair;
  valid = rw e o.valid;
}

released-Owns :
    (ws us : ℕ → Window) (h : Held) (q : List Held) (d : ℕ) (live : List Extent)
    → h.nv ≡ d
    → us d ≡ gpa_release (ws d) h.gpa h.len
    → Owns ws (h ∷ q) d live
    → Owns us q d live
released-Owns ws us h q d live n e o =
    let (f, fs) = o.fair in
    let (g, z) = f n in
    let base = (ws d).gpa_base in
    let b : (h.nv == d) ≡ true = ground arith in
    let a : base + (h.gpa - base) ≡ h.gpa = omega arith in
    let v : IsValid (ws d)
        (record { off = h.gpa - base; len = h.len } ∷ (extents_of d base q ++ live)) =
      rw b at o.valid in
    let r =
      (gpa_release-Returns (ws d) (extents_of d base q ++ live) (h.gpa - base) h.len o.mapped z
        v).0 in
    let u : us d ≡ gpa_release (ws d) (base + (h.gpa - base)) h.len =
      e ∙ ap (λ g. gpa_release (ws d) g h.len) (sym a) in
    record {
      mapped = rw u (r.same_mapped ∙ o.mapped);
      fair = rw u (subst (λ (x : ℕ). All (Fair d x) q) (sym r.same_base) fs);
      valid = rw u (
          subst
            (λ (x : ℕ).
              IsValid (gpa_release (ws d) (base + (h.gpa - base)) h.len) (extents_of d x q ++ live))
            (sym r.same_base) r.valid);
    }

-- Releasing the first entry of `h ∷ q` makes its extent free.
release_one-Owns :
    (ws : ℕ → Window) (h : Held) (q : List Held) (d : ℕ) (live : List Extent)
    → Owns ws (h ∷ q) d live
    → Owns (update ws h.nv (gpa_release (ws h.nv) h.gpa h.len)) q d live
release_one-Owns ws h q d live o = elim (Bool-cases (h.nv == d)) [
  | inl b ↦
      let n : h.nv ≡ d = ==-true _ _ b in
      released-Owns ws (update ws h.nv (gpa_release (ws h.nv) h.gpa h.len)) h q d live n
        (ground arith) o
  | inr b ↦
      Owns-window ws (update ws h.nv (gpa_release (ws h.nv) h.gpa h.len)) q d live (ground arith)
        (record { mapped = o.mapped; fair = o.fair.1; valid = rw b at o.valid })
]

release_held-Owns :
    (out : List Held) (ws : ℕ → Window) (rest : List Held) (d : ℕ) (live : List Extent)
    → Owns ws (out ++ rest) d live
    → Owns (release_held ws out) rest d live
unfolding release_held
release_held-Owns [] ws rest d live o = o
release_held-Owns (h ∷ out) ws rest d live o =
    release_held-Owns out (update ws h.nv (gpa_release (ws h.nv) h.gpa h.len)) rest d live
      (release_one-Owns ws h (out ++ rest) d live o)

-- A new entry takes over an extent that was given away, or concerns another device.
held-Owns :
    (ws : ℕ → Window) (q : List Held) (h : Held) (d : ℕ) (live : List Extent)
    → Fair d (ws d).gpa_base h
    → Owns ws q d (extents_of d (ws d).gpa_base (h ∷ []) ++ live)
    → Owns ws (q ++ h ∷ []) d live
held-Owns ws q h d live f o =
    let base = (ws d).gpa_base in
    record {
      mapped = o.mapped;
      fair = All-append (Fair d base) q (h ∷ []) o.fair (f, tt);
      valid = rw (extents_of-append d base q (h ∷ []), append_assoc) o.valid;
    }

-- What the client of device `d` holds, before it frees `[off, off + len)`.
abbrev pub with_freed : ℕ → ℕ → ℕ → ℕ → List Extent → List Extent
with_freed nv d off len live = if nv == d then record { off = off; len = len } ∷ live else live

freed-Owns :
    (ws : ℕ → Window) (q : List Held) (nv d off len : ℕ) (live : List Extent)
    → len % 4096 ≡ 0
    → Owns ws q d (with_freed nv d off len live)
    → Owns ws (q ++ record { nv = nv; gpa = (ws nv).gpa_base + off; len = len } ∷ []) d live
freed-Owns ws q nv d off len live z o =
    let h : Held = record { nv = nv; gpa = (ws nv).gpa_base + off; len = len } in
    elim (Bool-cases (nv == d)) [
      | inl b ↦
          let n : nv ≡ d = ==-true _ _ b in
          let f : (ws d).gpa_base ≤ h.gpa = omega (arith, ap (λ (x : ℕ). (ws x).gpa_base) n) in
          let g : h.gpa - (ws d).gpa_base ≡ off =
            omega (arith, ap (λ (x : ℕ). (ws x).gpa_base) n) in
          let t : extents_of d (ws d).gpa_base (h ∷ []) ++ live ≡ with_freed nv d off len live =
            rw b (ap (λ (x : ℕ). record { off = x; len = len } ∷ live) g) in
          held-Owns ws q h d live (λ e. (f, z))
            (subst (λ (l : List Extent). Owns ws q d l) (sym t) o)
      | inr b ↦ held-Owns ws q h d live (λ e. absurd (==-false _ _ b e)) (rw b (rw b at o))
    ]

-- Freeing an extent that device `nv` was given, of a positive size that rounds up to the extent's
-- length, keeps every device's bytes apart: for each device, the window's free bytes, the extents
-- in the quarantine and the extents still given away overlap nowhere. So an extent in the
-- quarantine is not handed out again before it leaves it.
pub gpa_free-Owns :
    (s : System) (nv d off size : ℕ) (live : List Extent)
    → 1 ≤ size
    → size ≤ 2 ^ 62
    → Capped s
    → Owns s.windows s.quar d (with_freed nv d off (page_round_up size) live)
    → let t = gpa_free s nv ((s.windows nv).gpa_base + off) size in Owns t.windows t.quar d live
unfolding gpa_free
gpa_free-Owns s nv d off size live a l c o =
    let (p, z) = page_round_up-whole size a l in
    let h : Held = record {
      nv = nv;
      gpa = (s.windows nv).gpa_base + off;
      len = page_round_up size;
    } in
    let g : (size == 0 || page_round_up size == 0) ≡ false = ground arith in
    let r = drain-held s h (page_round_up-le size l) c in
    rw g (
      release_held-Owns _ s.windows _ d live (
        subst (λ (q : List Held). Owns s.windows q d live) (sym r.in_order)
          (freed-Owns s.windows s.quar nv d off (page_round_up size) live z o)))
