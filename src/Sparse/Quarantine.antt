-- ===== src/Sparse/Quarantine.antt =====
-- The quarantine that an extent passes before it can be handed out again. The array is shared by
-- all devices, which are numbered here.
use nvkvm_pv.Base.{
  ℕ, ◌+◌, ◌-◌, ◌%◌, ◌^◌, Bool, false, ◌||◌, Option, none, List, [], ◌∷◌, ◌++◌, if◌then◌else◌, ltb,
  ◌==◌, length, update,
}
use nvkvm_pv.Sparse.Window.{Window, page_round_up, gpa_release}

pub record Held : Type 0 where
  pub nv : ℕ
  pub gpa : ℕ
  pub len : ℕ

pub record System : Type 0 where
  pub windows : ℕ → Window
  pub quar : List Held
  pub quar_bytes : ℕ

abbrev pub quar_max : ℕ
quar_max = 64

abbrev pub quar_max_bytes : ℕ
quar_max_bytes = 67108864

-- `uint64_t` subtraction
abbrev pub sub64 : ℕ → ℕ → ℕ
sub64 a b = (a + 2 ^ 64 - b) % 2 ^ 64

abbrev pub over_caps : List Held → ℕ → Bool
over_caps q bytes = ltb quar_max (length q) || ltb quar_max_bytes bytes

-- The loop that takes entries from the front: what it took, what is left, and the bytes left.
unfoldable pub drain : List Held → ℕ → List Held × List Held × ℕ
drain [] bytes = ([], [], bytes)
drain (h ∷ q) bytes =
    let (out, rest, left) = drain q (sub64 bytes h.len) in
    if over_caps (h ∷ q) bytes then (h ∷ out, rest, left) else ([], h ∷ q, bytes)

unfoldable pub release_held : (ℕ → Window) → List Held → ℕ → Window
release_held ws [] = ws
release_held ws (h ∷ hs) = release_held (update ws h.nv (gpa_release (ws h.nv) h.gpa h.len)) hs

-- `nvkvm_sparse_gpa_free` with a device.
unfoldable pub gpa_free : System → ℕ → ℕ → ℕ → System
gpa_free s nv gpa size =
    let len = page_round_up size in
    if size == 0 || len == 0
    then s
    else let (out, rest, left) =
        drain (s.quar ++ record { nv = nv; gpa = gpa; len = len } ∷ [])
          ((s.quar_bytes + len) % 2 ^ 64) in
      record { windows = release_held s.windows out; quar = rest; quar_bytes = left }

-- `nvkvm_gpa_quar_purge`
unfoldable pub purge_from : ℕ → List Held → ℕ → List Held × ℕ
purge_from nv [] bytes = ([], bytes)
purge_from nv (h ∷ q) bytes =
    let mine = h.nv == nv in
    let (rest, left) = purge_from nv q (if mine then sub64 bytes h.len else bytes) in
    (if mine then rest else h ∷ rest, left)

-- `nvkvm_sparse_fini`: the window without its buffer and its free list, and the memory slot that
-- is passed to `kvm_remove_memory_region`.
unfoldable pub sparse_fini : System → ℕ → System × Option ℕ
sparse_fini s nv =
    let (rest, left) = purge_from nv s.quar s.quar_bytes in
    let w = s.windows nv in
    (
      record {
        windows =
            if w.mapped
            then update s.windows nv (record w { mapped = false; free = [] })
            else s.windows;
        quar = rest;
        quar_bytes = left;
      },
      if w.mapped then w.kvm_slot else none,
    )
