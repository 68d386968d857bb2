-- ===== src/MmapTable/Translation.antt =====
-- The memory behind a translation that succeeds.
use nvkvm_pv.Base.{
  ℕ, zero, suc, ◌+◌, ◌-◌, ◌^◌, ◌≤◌, ◌<◌, ◌≡◌, refl, true, ◌&&◌, Option, some, ltb, leb, ◌==◌, arith,
  inl, inr, ◌⊎◌, Bool-cases, Option-cases,
}
use nvkvm_pv.Base.Words.{add64}
use nvkvm_pv.MmapTable.Table.{Entry, IsoMmapTbl, iso_mmap_max}
use nvkvm_pv.MmapTable.Translate.{
  is_usable, contains_va, find_hit, Walk, advance, next_round, walk, iso_mmap_translate,
}

-- The fields have their widths, and what stands in an isolate ends below 2^63.
abbrev pub IsSized : (ℕ → Entry) → Type 0
IsSized entry =
    (i : ℕ)
    → ((entry i).gva < 2 ^ 64)
      × ((entry i).len < 2 ^ 64)
      × ((entry i).stub_va + (entry i).len ≤ 2 ^ 63)

-- The byte `x` of the guest stands at `y` in the isolate, by entry `j`.
pub record Stands (entry : ℕ → Entry) (isolate x y : ℕ) : Type 0 where
  pub index : ℕ
  pub in_table : (1 ≤ index) × (index < iso_mmap_max)
  pub used : (entry index).used ≡ true
  pub mirrored : (entry index).stub_mirrored ≡ true
  pub own : (entry index).isolate_id ≡ isolate
  pub from : (entry index).gva ≤ x
  pub to : x < (entry index).gva + (entry index).len
  pub at : (entry index).stub_va + (x - (entry index).gva) ≡ y

-- An entry that the search finds.
pub record Hit (entry : ℕ → Entry) (isolate cur : ℕ) (e : Entry) : Type 0 where
  pub index : ℕ
  pub same : entry index ≡ e
  pub in_table : (1 ≤ index) × (index < iso_mmap_max)
  pub usable : is_usable isolate e ≡ true
  pub from : e.gva ≤ cur
  pub to : cur < e.gva + e.len
  pub no_wrap : add64 e.gva e.len ≡ e.gva + e.len
  pub below : e.stub_va + e.len ≤ 2 ^ 63
  pub window : add64 e.stub_va e.len ≡ e.stub_va + e.len

find_hit_lem :
    (k i : ℕ) (entry : ℕ → Entry) (isolate cur : ℕ) (e : Entry)
    → find_hit k i entry isolate cur ≡ some e
    → (j : ℕ) × (i ≤ j)
      × (j < i + k)
      × (entry j ≡ e)
      × (is_usable isolate e ≡ true)
      × (contains_va cur e ≡ true)
unfolding find_hit
find_hit_lem zero i entry isolate cur e h = cc
find_hit_lem (suc k) i entry isolate cur e h =
    elim (Bool-cases (is_usable isolate (entry i) && contains_va cur (entry i))) [
      | inl b ↦
          let z : ◌≡◌ {A = Option Entry} (some (entry i)) (some e) = rw b at h in
          let q : entry i ≡ e = cc in
          (i, omega arith, omega arith, q, rw (← q) (ground arith), rw (← q) (ground arith))
      | inr b ↦
          let (j, x, y, q, u, c) = find_hit_lem k (suc i) entry isolate cur e (rw b at h) in
          (j, omega arith, omega arith, q, u, c)
    ]

pub find_hit-Hit :
    (entry : ℕ → Entry) (isolate cur : ℕ) (e : Entry)
    → IsSized entry
    → find_hit (iso_mmap_max - 1) 1 entry isolate cur ≡ some e
    → Hit entry isolate cur e
find_hit-Hit entry isolate cur e s h =
    let (j, x, y, q, u, c) = find_hit_lem (iso_mmap_max - 1) 1 entry isolate cur e h in
    let w : (e.gva < 2 ^ 64) × (e.len < 2 ^ 64) × (e.stub_va + e.len ≤ 2 ^ 63) = rw (← q) (s j) in
    let n : add64 e.gva e.len ≡ e.gva + e.len = ground (arith, u, w) in
    record {
      index = j;
      same = q;
      in_table = (x, omega arith);
      usable = u;
      from = ground (arith, c);
      to = ground (arith, c, n);
      no_wrap = n;
      below = w.2;
      window = omega (arith, w);
    }

pub Hit-Stands :
    {entry : ℕ → Entry} {isolate cur : ℕ} {e : Entry} (x y : ℕ)
    → Hit entry isolate cur e
    → e.gva ≤ x
    → x < e.gva + e.len
    → e.stub_va + (x - e.gva) ≡ y
    → Stands entry isolate x y
Hit-Stands x y h f t a = record {
  index = h.index;
  in_table = h.in_table;
  used = rw h.same (ground (arith, h.usable));
  mirrored = rw h.same (ground (arith, h.usable));
  own = rw h.same (ground (arith, h.usable));
  from = rw h.same f;
  to = rw h.same t;
  at = rw h.same a;
}

-- Each byte of a range of the guest stands somewhere, and at each byte of a range of the isolate
-- one of the guest does.
pub record Covered (entry : ℕ → Entry) (isolate gva stub_va len : ℕ) : Type 0 where
  pub guest : (d : ℕ) → d < len → (y : ℕ) × Stands entry isolate (gva + d) y
  pub stub : (d : ℕ) → d < len → (x : ℕ) × Stands entry isolate x (stub_va + d)

-- An entry, from its byte `k` on in the isolate, and the ranges after it on both sides.
Hit-Covered :
    {entry : ℕ → Entry} {isolate : ℕ} (cur k len rest : ℕ) (e : Entry)
    → Hit entry isolate cur e
    → k ≤ cur - e.gva
    → len ≤ e.gva + e.len - cur + rest
    → Covered entry isolate (e.gva + e.len) (e.stub_va + e.len) rest
    → Covered entry isolate cur (e.stub_va + k) len
Hit-Covered {entry} {isolate} cur k len rest e h m l c = record {
  guest = λ d n. elim (Bool-cases (ltb (cur + d) (e.gva + e.len))) [
    | inl b ↦ (
      e.stub_va + (cur + d - e.gva),
      Hit-Stands (cur + d) (e.stub_va + (cur + d - e.gva)) h (omega (arith, h.from)) (ground arith)
          refl,
    )
    | inr b ↦
        guest_after d (ground arith) (c.guest (cur + d - (e.gva + e.len)) (ground (arith, h.to)))
  ];
  stub = λ d n. elim (Bool-cases (ltb (k + d) e.len)) [
    | inl b ↦ (
      e.gva + k + d,
      Hit-Stands (e.gva + k + d) (e.stub_va + k + d) h (omega arith) (ground arith) (omega arith),
    )
    | inr b ↦ stub_after d (ground arith) (c.stub (k + d - e.len) (ground (arith, h.from, h.to)))
  ];
}
  where
    guest_after :
        (d : ℕ)
        → e.gva + e.len ≤ cur + d
        → (y : ℕ) × Stands entry isolate (e.gva + e.len + (cur + d - (e.gva + e.len))) y
        → (y : ℕ) × Stands entry isolate (cur + d) y
    guest_after d n (y, s) =
        let q : e.gva + e.len + (cur + d - (e.gva + e.len)) ≡ cur + d = omega arith in
        (y, rw q at s)

    stub_after :
        (d : ℕ)
        → e.len ≤ k + d
        → (x : ℕ) × Stands entry isolate x (e.stub_va + e.len + (k + d - e.len))
        → (x : ℕ) × Stands entry isolate x (e.stub_va + k + d)
    stub_after d n (x, s) =
        let q : e.stub_va + e.len + (k + d - e.len) ≡ e.stub_va + k + d = omega arith in
        (x, rw q at s)

Covered-empty :
    {entry : ℕ → Entry} {isolate : ℕ} (gva stub_va : ℕ) → Covered entry isolate gva stub_va 0
Covered-empty gva stub_va = record {
  guest = λ d h. absurd (omega arith);
  stub = λ d h. absurd (omega arith);
}

-- A round ends the walk, or it goes on after the entry.
pub advance_found :
    {entry : ℕ → Entry} {isolate : ℕ} (go : ℕ → ℕ → ℕ → Walk) (end cur stub_base s : ℕ) (e : Entry)
    → Hit entry isolate cur e
    → advance go end cur stub_base e ≡ Walk.found s
    → ((end ≤ e.gva + e.len) × (s ≡ stub_base))
      ⊎ ((e.gva + e.len < end) × (go (e.gva + e.len) stub_base (e.stub_va + e.len) ≡ Walk.found s))
advance_found go end cur stub_base s e h f = elim (Bool-cases (leb (e.gva + e.len) cur)) [
  | inl b ↦ let z : Walk.refused ≡ Walk.found s = rw (h.no_wrap, b) at f in cc
  | inr b ↦ elim (Bool-cases (leb end (e.gva + e.len))) [
    | inl c ↦
        let z : Walk.found stub_base ≡ Walk.found s = rw (h.no_wrap, b, c) at f in
        inl (ground arith, cc)
    | inr c ↦ inr (ground arith, rw (h.no_wrap, h.window, b, c) at f)
  ]
]

advance-Covered :
    {entry : ℕ → Entry} {isolate : ℕ} (go : ℕ → ℕ → ℕ → Walk) (end cur stub_base k s : ℕ)
    (e : Entry)
    → Hit entry isolate cur e
    → k ≤ cur - e.gva
    → (go (e.gva + e.len) stub_base (e.stub_va + e.len) ≡ Walk.found s
        → (s ≡ stub_base)
          × Covered entry isolate (e.gva + e.len) (e.stub_va + e.len) (end - (e.gva + e.len)))
    → advance go end cur stub_base e ≡ Walk.found s
    → (s ≡ stub_base) × Covered entry isolate cur (e.stub_va + k) (end - cur)
advance-Covered go end cur stub_base k s e h m rest f =
    elim (advance_found go end cur stub_base s e h f) [
      | inl (l, q) ↦ (q, Hit-Covered cur k (end - cur) 0 e h m (omega arith) (Covered-empty _ _))
      | inr (l, g) ↦
          let (q, r) = rest g in
          (q, Hit-Covered cur k (end - cur) (end - (e.gva + e.len)) e h m (omega (arith, h.to)) r)
    ]

walk-Covered :
    (fuel : ℕ) (entry : ℕ → Entry) (isolate end cur stub_base stub_next s : ℕ)
    → IsSized entry
    → walk fuel entry isolate end cur stub_base stub_next ≡ Walk.found s
    → (s ≡ stub_base) × Covered entry isolate cur stub_next (end - cur)
unfolding walk
walk-Covered zero entry isolate end cur stub_base stub_next s z h = cc
walk-Covered (suc fuel) entry isolate end cur stub_base stub_next s z h =
    elim (Option-cases (find_hit (iso_mmap_max - 1) 1 entry isolate cur)) [
      | inl n ↦ let y : Walk.refused ≡ Walk.found s = rw n at h in cc
      | inr (e, n) ↦
          go e (find_hit-Hit entry isolate cur e z n) (rw n at h)
            (walk-Covered fuel entry isolate end (e.gva + e.len) stub_base (e.stub_va + e.len) s z)
    ]
  where
    go :
        (e : Entry)
        → Hit entry isolate cur e
        → next_round (walk fuel entry isolate end) end cur stub_base stub_next (some e)
          ≡ Walk.found s
        → (walk fuel entry isolate end (e.gva + e.len) stub_base (e.stub_va + e.len) ≡ Walk.found s
            → (s ≡ stub_base)
              × Covered entry isolate (e.gva + e.len) (e.stub_va + e.len) (end - (e.gva + e.len)))
        → (s ≡ stub_base) × Covered entry isolate cur stub_next (end - cur)
    go e hit f ih = elim (Bool-cases (e.stub_va == stub_next)) [
      | inl b ↦
          let q : e.stub_va + 0 ≡ stub_next = ground arith in
          let (x, y) =
            advance-Covered (walk fuel entry isolate end) end cur stub_base 0 s e hit (omega arith)
              ih (rw b at f) in
          (x, rw q at y)
      | inr b ↦ let y : Walk.refused ≡ Walk.found s = rw b at f in cc
    ]

-- The first round of a translation that succeeds.
pub translate_found :
    (t : IsoMmapTbl) (isolate base len s : ℕ)
    → base < 2 ^ 64
    → len < 2 ^ 64
    → IsSized t.entry
    → iso_mmap_translate t isolate base len ≡ Walk.found s
    → (base + len < 2 ^ 64)
      × (e : Entry) × Hit t.entry isolate base e
      × (advance
            (walk iso_mmap_max t.entry isolate (base + len))
            (base + len)
            base
            (e.stub_va + (base - e.gva))
            e
          ≡ Walk.found s)
unfolding iso_mmap_translate
translate_found t isolate base len s bb lb z h = elim (Bool-cases (len == 0)) [
  | inl a ↦ let y : Walk.refused ≡ Walk.found s = rw a at h in cc
  | inr a ↦ elim (Bool-cases (ltb (add64 base len) base)) [
    | inl b ↦ let y : Walk.refused ≡ Walk.found s = rw (a, b) at h in cc
    | inr b ↦
        let q : add64 base len ≡ base + len = ground arith in
        elim (Option-cases (find_hit (iso_mmap_max - 1) 1 t.entry isolate base)) [
          | inl n ↦ let y : Walk.refused ≡ Walk.found s = rw (a, b, n) at h in cc
          | inr (e, n) ↦
              let hit = find_hit-Hit t.entry isolate base e z n in
              let c : add64 e.stub_va (base - e.gva) ≡ e.stub_va + (base - e.gva) =
                omega (arith, hit.to, hit.below) in
              (ground arith, e, hit, rw (a, b, n, q, c) at h)
        ]
  ]
]

-- Where the fields have their widths, a translation that succeeds is of a range that does not wrap;
-- each byte of it stands in the isolate by an entry that is used, mirrored and the isolate's own,
-- and at each of as many bytes from the result on, one of the guest does.
pub iso_mmap_translate-Covered :
    (t : IsoMmapTbl) (isolate base len s : ℕ)
    → base < 2 ^ 64
    → len < 2 ^ 64
    → IsSized t.entry
    → iso_mmap_translate t isolate base len ≡ Walk.found s
    → (base + len < 2 ^ 64) × Covered t.entry isolate base s len
iso_mmap_translate-Covered t isolate base len s bb lb z h =
    let (w, e, hit, f) = translate_found t isolate base len s bb lb z h in
    let (x, y) =
      advance-Covered (walk iso_mmap_max t.entry isolate (base + len)) (base + len) base
        (e.stub_va + (base - e.gva)) (base - e.gva) s e hit (omega arith)
        (walk-Covered iso_mmap_max t.entry isolate (base + len) (e.gva + e.len)
          (e.stub_va + (base - e.gva)) (e.stub_va + e.len) s z)
        f in
    let all : base + len - base ≡ len = omega arith in (w, rw (x, ← all) y)
