-- ===== src/Handle/Teardown.antt =====
-- What tearing a session down does to each handle.
use nvkvm_pv.Base.{
  ℕ, zero, suc, ◌+◌, ◌-◌, ◌≤◌, ◌<◌, ◌≡◌, refl, ◌∙◌, ap, sym, All-append, true, false, ◌&&◌, Option,
  none, some, List, [], ◌∷◌, ◌++◌, if◌then◌else◌, ltb, leb, ◌==◌, arith, All, inl, inr, Bool-cases,
}
use mathlib.Core.List.{append_assoc}
use nvkvm_pv.Handle.Os.{Handle, Table, handle_max}
use nvkvm_pv.Handle.Life.{free}
use nvkvm_pv.Handle.Session.{spares, close_session_at, close_session_from, close_session}
use nvkvm_pv.Handle.Keep.{free-Edited}

-- What a slot becomes: an unreferenced handle of the session is closed and freed.
abbrev pub torn : ℕ → Handle → Handle
torn session h =
    if h.in_use && h.session_id == session && h.isolate_refcount == 0
    then record h { fd = none; in_use = false }
    else h

handles-close_session_at :
    (session : ℕ) (t : Table) (i j : ℕ)
    → (close_session_at session t i).handles j
      ≡ (if i == j then torn session (t.handles j) else t.handles j)
unfolding close_session_at
handles-close_session_at session t i j = ground (arith, (free-Edited t i).content j)

handles-close_session_from :
    (session k i : ℕ) (t : Table) (j : ℕ)
    → (close_session_from session k i t).handles j
      ≡ (if leb i j && ltb j (i + k) then torn session (t.handles j) else t.handles j)
unfolding close_session_from
handles-close_session_from session zero i t j = ground arith
handles-close_session_from session (suc k) i t j = ground (
  arith,
  handles-close_session_from session k (suc i) (close_session_at session t i) j,
  handles-close_session_at session t i j,
)

if_between :
    (lo j hi : ℕ) (x y : Handle) → lo ≤ j → j < hi → (if leb lo j && ltb j hi then x else y) ≡ x
if_between lo j hi x y a b = ground arith

-- Tearing a session down closes and frees exactly the session's handles that no isolate
-- references, at every id; all other slots stay as they are.
pub handles-close_session :
    (t : Table) (session j : ℕ)
    → 1 ≤ j
    → j < handle_max
    → (close_session t session).handles j ≡ torn session (t.handles j)
unfolding close_session
handles-close_session t session j a b =
    handles-close_session_from session (handle_max - 1) 1 t j
    ∙ if_between 1 j 65536 (torn session (t.handles j)) (t.handles j) a b

-- A descriptor that a free handle of the session had.
abbrev pub Idle : Table → ℕ → ℕ → Type 0
Idle t session fd =
    (i : ℕ) × ((t.handles i).in_use ≡ true)
    × ((t.handles i).session_id ≡ session)
    × ((t.handles i).isolate_refcount ≡ 0)
    × ((t.handles i).fd ≡ some fd)

Idle-close_session_at :
    (session : ℕ) (t : Table) (i fd : ℕ)
    → Idle (close_session_at session t i) session fd
    → Idle t session fd
Idle-close_session_at session t i fd (j, a, b, c, d) =
    let e = handles-close_session_at session t i j in
    (j, ground arith, ground arith, ground arith, ground arith)

All-Idle :
    (session : ℕ) (t : Table) (i : ℕ) (fds : List ℕ)
    → All (Idle (close_session_at session t i) session) fds
    → All (Idle t session) fds
All-Idle session t i [] h = tt
All-Idle session t i (fd ∷ fds) h =
    (Idle-close_session_at session t i fd h.0, All-Idle session t i fds h.1)

-- The descriptors that the code closed on the way from `t` to `u`, each of an idle handle.
abbrev ClosedIdle : Table → Table → ℕ → Type 0
ClosedIdle t u session = (fds : List ℕ) × (u.closed ≡ fds ++ t.closed) × All (Idle t session) fds

closed-close_session_at :
    (session : ℕ) (t : Table) (i : ℕ) → ClosedIdle t (close_session_at session t i) session
unfolding close_session_at
closed-close_session_at session t i = elim (Bool-cases (spares session (t.handles i))) [
  | inl b ↦ rw b ([], refl, tt)
  | inr b ↦ rw b (go (t.handles i).fd refl b)
]
  where
    go :
        (o : Option ℕ)
        → (t.handles i).fd ≡ o
        → spares session (t.handles i) ≡ false
        → ClosedIdle t (free t i) session
    go none e b = ([], ground arith, tt)
    go (some fd) e b =
        (fd ∷ [], ground arith, ((i, ground arith, ground arith, ground arith, e), tt))

closed-close_session_from :
    (session k i : ℕ) (t : Table) → ClosedIdle t (close_session_from session k i t) session
unfolding close_session_from
closed-close_session_from session zero i t = ([], refl, tt)
closed-close_session_from session (suc k) i t =
    let (fds, e, h) = closed-close_session_at session t i in
    let (more, f, g) = closed-close_session_from session k (suc i) (close_session_at session t i) in
    (
      more ++ fds,
      f ∙ ap (λ l. more ++ l) e ∙ sym (append_assoc more fds t.closed),
      All-append (Idle t session) more fds (All-Idle session t i more g) h,
    )

-- Tearing a session down closes no descriptor but those of the session's own handles that no
-- isolate references.
pub closed-close_session :
    (t : Table) (session : ℕ)
    → (fds : List ℕ) × ((close_session t session).closed ≡ fds ++ t.closed)
      × All (Idle t session) fds
unfolding close_session
closed-close_session t session = closed-close_session_from session (handle_max - 1) 1 t
