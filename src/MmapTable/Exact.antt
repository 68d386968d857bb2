-- ===== src/MmapTable/Exact.antt =====
-- Translations among entries that do not overlap, and the rounds of the walk.
use nvkvm_pv.Base.{
  ℕ, zero, suc, ◌+◌, ◌-◌, ◌^◌, ◌≤◌, ◌<◌, ◌≡◌, ◌≢◌, refl, ap, true, ◌&&◌, some, if◌then◌else◌, ltb,
  leb, ◌==◌, ==-true, arith, inl, inr, ◌⊎◌, Bool-cases, Option-cases, sum_below, sum_below_lt,
  sum_below_bound,
}
use nvkvm_pv.Base.Words.{add64}
use nvkvm_pv.MmapTable.Table.{Entry, IsoMmapTbl, iso_mmap_max}
use nvkvm_pv.MmapTable.Translate.{
  is_usable, find_hit, Walk, advance, next_round, walk, iso_mmap_translate,
}
use nvkvm_pv.MmapTable.Translation.{
  IsSized, Stands, Hit, find_hit-Hit, Hit-Stands, advance_found, translate_found,
}

-- No two entries of an isolate have a byte of the guest in common.
abbrev pub Disjoint : (ℕ → Entry) → ℕ → Type 0
Disjoint entry isolate =
    (i j : ℕ)
    → i ≢ j
    → is_usable isolate (entry i) ≡ true
    → is_usable isolate (entry j) ≡ true
    → ((entry i).gva + (entry i).len ≤ (entry j).gva)
      ⊎ ((entry j).gva + (entry j).len ≤ (entry i).gva)

Hit-next :
    {entry : ℕ → Entry} {isolate cur : ℕ} (x y : Entry)
    → Disjoint entry isolate
    → Hit entry isolate cur x
    → Hit entry isolate (x.gva + x.len) y
    → y.gva ≡ x.gva + x.len
Hit-next {entry} {isolate} x y d h k = elim (Bool-cases (h.index == k.index)) [
  | inl b ↦
      let i : h.index ≡ k.index = ground arith in
      let e : x ≡ y = let f : entry h.index ≡ entry k.index = ap entry i in cc in
      let g : x.gva ≡ y.gva = ap (λ (z : Entry). z.gva) e in
      let l : x.len ≡ y.len = ap (λ (z : Entry). z.len) e in absurd (omega (arith, k.to))
  | inr b ↦
      let apart : (x.gva + x.len ≤ y.gva) ⊎ (y.gva + y.len ≤ x.gva) =
        rw (← h.same, ← k.same)
          (d h.index k.index (λ q. ground arith) (rw h.same h.usable) (rw k.same k.usable)) in
      elim apart [ inl l ↦ omega (arith, k.from) | inr l ↦ absurd (omega (arith, k.to)) ]
]

-- The whole of a range stands at another.
abbrev pub Maps : (ℕ → Entry) → ℕ → ℕ → ℕ → ℕ → Type 0
Maps entry isolate gva stub_va len =
    (d : ℕ) → d < len → Stands entry isolate (gva + d) (stub_va + d)

Hit-Maps :
    {entry : ℕ → Entry} {isolate : ℕ} (cur stub_va len rest : ℕ) (e : Entry)
    → Hit entry isolate cur e
    → stub_va ≡ e.stub_va + (cur - e.gva)
    → len ≤ e.gva + e.len - cur + rest
    → Maps entry isolate (e.gva + e.len) (e.stub_va + e.len) rest
    → Maps entry isolate cur stub_va len
Hit-Maps {entry} {isolate} cur stub_va len rest e h a l m d n =
    elim (Bool-cases (ltb (cur + d) (e.gva + e.len))) [
      | inl b ↦
          Hit-Stands (cur + d) (stub_va + d) h (omega (arith, h.from)) (ground arith)
            (omega (arith, h.from))
      | inr b ↦ after (ground arith) (m (cur + d - (e.gva + e.len)) (ground (arith, h.to)))
    ]
  where
    after :
        e.gva + e.len ≤ cur + d
        → Stands entry isolate
            (e.gva + e.len + (cur + d - (e.gva + e.len)))
            (e.stub_va + e.len + (cur + d - (e.gva + e.len)))
        → Stands entry isolate (cur + d) (stub_va + d)
    after o s =
        let x : e.gva + e.len + (cur + d - (e.gva + e.len)) ≡ cur + d = omega arith in
        let y : e.stub_va + e.len + (cur + d - (e.gva + e.len)) ≡ stub_va + d =
          omega (arith, h.from, h.to) in
        rw (x, y) at s

walk-Maps :
    (fuel : ℕ) (entry : ℕ → Entry) (isolate end cur stub_base s : ℕ) (x : Entry)
    → IsSized entry
    → Disjoint entry isolate
    → Hit entry isolate cur x
    → walk fuel entry isolate end (x.gva + x.len) stub_base (x.stub_va + x.len) ≡ Walk.found s
    → (s ≡ stub_base)
      × Maps entry isolate (x.gva + x.len) (x.stub_va + x.len) (end - (x.gva + x.len))
unfolding walk
walk-Maps zero entry isolate end cur stub_base s x z dj hx h = cc
walk-Maps (suc fuel) entry isolate end cur stub_base s x z dj hx h =
    elim (Option-cases (find_hit (iso_mmap_max - 1) 1 entry isolate (x.gva + x.len))) [
      | inl n ↦ let y : Walk.refused ≡ Walk.found s = rw n at h in cc
      | inr (e, n) ↦
          go e (find_hit-Hit entry isolate (x.gva + x.len) e z n) (rw n at h)
            (walk-Maps fuel entry isolate end (x.gva + x.len) stub_base s e z dj)
    ]
  where
    go :
        (e : Entry)
        → Hit entry isolate (x.gva + x.len) e
        → next_round
            (walk fuel entry isolate end)
            end
            (x.gva + x.len)
            stub_base
            (x.stub_va + x.len)
            (some e)
          ≡ Walk.found s
        → (Hit entry isolate (x.gva + x.len) e
            → walk fuel entry isolate end (e.gva + e.len) stub_base (e.stub_va + e.len)
              ≡ Walk.found s
            → (s ≡ stub_base)
              × Maps entry isolate (e.gva + e.len) (e.stub_va + e.len) (end - (e.gva + e.len)))
        → (s ≡ stub_base)
          × Maps entry isolate (x.gva + x.len) (x.stub_va + x.len) (end - (x.gva + x.len))
    go e hit f ih = elim (Bool-cases (e.stub_va == x.stub_va + x.len)) [
      | inl b ↦
          let q : x.stub_va + x.len ≡ e.stub_va + (x.gva + x.len - e.gva) =
            omega (arith, ==-true _ _ b, Hit-next x e dj hx hit) in
          elim (advance_found (walk fuel entry isolate end) end (x.gva + x.len) stub_base s e hit
            (rw b at f)) [
              | inl (l, r) ↦
                  (r, Hit-Maps _ _ _ 0 e hit q (omega arith) (λ d y. absurd (omega arith)))
              | inr (l, r) ↦
                  let (u, v) = ih hit r in
                  (u, Hit-Maps _ _ _ (end - (e.gva + e.len)) e hit q (omega (arith, hit.to)) v)
            ]
      | inr b ↦ let y : Walk.refused ≡ Walk.found s = rw b at f in cc
    ]

-- Where the fields have their widths and no two entries of the isolate have a byte of the guest in
-- common, a translation that succeeds is exact: the byte at each distance from the start of the
-- range stands at that distance from the result.
pub iso_mmap_translate-Maps :
    (t : IsoMmapTbl) (isolate base len s : ℕ)
    → base < 2 ^ 64
    → len < 2 ^ 64
    → IsSized t.entry
    → Disjoint t.entry isolate
    → iso_mmap_translate t isolate base len ≡ Walk.found s
    → (d : ℕ) → d < len
    → Stands t.entry isolate (base + d) (s + d)
iso_mmap_translate-Maps t isolate base len s bb lb z dj h d l =
    let (w, e, hit, f) = translate_found t isolate base len s bb lb z h in
    let sb : ℕ = e.stub_va + (base - e.gva) in
    elim (advance_found (walk iso_mmap_max t.entry isolate (base + len)) (base + len) base sb s e
      hit f) [
        | inl (m, r) ↦
            rw r
              (Hit-Maps base sb len 0 e hit refl (omega arith) (λ d' y. absurd (omega arith)) d l)
        | inr (m, r) ↦
            let (u, v) =
              walk-Maps iso_mmap_max t.entry isolate (base + len) base sb s e z dj hit r in
            rw u (
              Hit-Maps base sb len (base + len - (e.gva + e.len)) e hit refl (omega (arith, hit.to))
                v d l)
      ]

-- How many entries end past an address.
ahead : ℕ → ℕ → Entry → ℕ
ahead isolate cur e = if is_usable isolate e && ltb cur (e.gva + e.len) then 1 else 0

ahead_le : (isolate cur : ℕ) (e : Entry) → ahead isolate cur e ≤ 1
unfolding ahead
ahead_le isolate cur e = ground arith

ahead_less :
    (entry : ℕ → Entry) (isolate cur : ℕ) (e : Entry)
    → Hit entry isolate cur e
    → sum_below iso_mmap_max (ahead isolate (e.gva + e.len)) entry
      < sum_below iso_mmap_max (ahead isolate cur) entry
unfolding ahead
ahead_less entry isolate cur e h =
    sum_below_lt (ahead isolate (e.gva + e.len)) (ahead isolate cur) iso_mmap_max entry h.index
      h.in_table.1 (λ j. ground (arith, h.to)) (rw h.same (ground (arith, h.to, h.usable)))

advance-ne-spent :
    {entry : ℕ → Entry} {isolate : ℕ} (go : ℕ → ℕ → ℕ → Walk) (end cur stub_base : ℕ) (e : Entry)
    → Hit entry isolate cur e
    → go (e.gva + e.len) stub_base (e.stub_va + e.len) ≢ Walk.spent
    → advance go end cur stub_base e ≢ Walk.spent
advance-ne-spent go end cur stub_base e h g f = elim (Bool-cases (leb (e.gva + e.len) cur)) [
  | inl b ↦ let z : Walk.refused ≡ Walk.spent = rw (h.no_wrap, b) at f in cc
  | inr b ↦ elim (Bool-cases (leb end (e.gva + e.len))) [
    | inl c ↦ let z : Walk.found stub_base ≡ Walk.spent = rw (h.no_wrap, b, c) at f in cc
    | inr c ↦ g (rw (h.no_wrap, h.window, b, c) at f)
  ]
]

walk-ne-spent :
    (fuel : ℕ) (entry : ℕ → Entry) (isolate end cur stub_base stub_next : ℕ)
    → IsSized entry
    → sum_below iso_mmap_max (ahead isolate cur) entry < fuel
    → walk fuel entry isolate end cur stub_base stub_next ≢ Walk.spent
unfolding walk
walk-ne-spent zero entry isolate end cur stub_base stub_next z l h = absurd (omega arith)
walk-ne-spent (suc fuel) entry isolate end cur stub_base stub_next z l h =
    elim (Option-cases (find_hit (iso_mmap_max - 1) 1 entry isolate cur)) [
      | inl n ↦ let y : Walk.refused ≡ Walk.spent = rw n at h in cc
      | inr (e, n) ↦
          go e (find_hit-Hit entry isolate cur e z n) (rw n at h)
            (walk-ne-spent fuel entry isolate end (e.gva + e.len) stub_base (e.stub_va + e.len) z)
    ]
  where
    go :
        (e : Entry)
        → Hit entry isolate cur e
        → next_round (walk fuel entry isolate end) end cur stub_base stub_next (some e) ≡ Walk.spent
        → (sum_below iso_mmap_max (ahead isolate (e.gva + e.len)) entry < fuel
            → walk fuel entry isolate end (e.gva + e.len) stub_base (e.stub_va + e.len)
              ≢ Walk.spent)
        → ⊥
    go e hit f ih = elim (Bool-cases (e.stub_va == stub_next)) [
      | inl b ↦
          advance-ne-spent (walk fuel entry isolate end) end cur stub_base e hit
            (ih (omega (arith, ahead_less entry isolate cur e hit))) (rw b at f)
      | inr b ↦ let y : Walk.refused ≡ Walk.spent = rw b at f in cc
    ]

-- The walk of a translation ends before it has used up its fuel, which is the size of the table:
-- each round goes past the end of an entry that no other round goes past.
pub iso_mmap_translate-ne-spent :
    (t : IsoMmapTbl) (isolate base len : ℕ)
    → IsSized t.entry
    → iso_mmap_translate t isolate base len ≢ Walk.spent
unfolding iso_mmap_translate
iso_mmap_translate-ne-spent t isolate base len z h = elim (Bool-cases (len == 0)) [
  | inl a ↦ let y : Walk.refused ≡ Walk.spent = rw a at h in cc
  | inr a ↦ elim (Bool-cases (ltb (add64 base len) base)) [
    | inl b ↦ let y : Walk.refused ≡ Walk.spent = rw (a, b) at h in cc
    | inr b ↦ elim (Option-cases (find_hit (iso_mmap_max - 1) 1 t.entry isolate base)) [
      | inl n ↦ let y : Walk.refused ≡ Walk.spent = rw (a, b, n) at h in cc
      | inr (e, n) ↦
          let hit = find_hit-Hit t.entry isolate base e z n in
          advance-ne-spent (walk iso_mmap_max t.entry isolate (add64 base len)) (add64 base len)
            base (add64 e.stub_va (base - e.gva)) e hit
            (walk-ne-spent iso_mmap_max t.entry isolate (add64 base len) (e.gva + e.len)
              (add64 e.stub_va (base - e.gva)) (e.stub_va + e.len) z
              (omega (arith, ahead_less t.entry isolate base e hit, bound)))
            (rw (a, b, n) at h)
    ]
  ]
]
  where
    bound : sum_below iso_mmap_max (ahead isolate base) t.entry ≤ iso_mmap_max
    bound =
        sum_below_bound (ahead isolate base) iso_mmap_max t.entry
          (λ i. ahead_le isolate base (t.entry i))
