-- ===== src/Tables/Links.antt =====
-- Isolates, and the links from isolates to handles with the descriptor that the isolate has.
use nvkvm_pv.Base.{
  ℕ, ◌+◌, Bool, true, false, not, ◌&&◌, ◌||◌, Option, none, some, List, [], ◌∷◌, if◌then◌else◌, leb,
  ◌==◌, update,
}
use nvkvm_pv.Base.Results.{Result, ok, err, einval, eexist, enoent, enospc}
use nvkvm_pv.Tables.Ids.{id_pack, id_slot, after_gen, after_slot, search}
use nvkvm_pv.Tables.Handles.{max_isolates, close_fd}

pub record IsolateEntry : Type 0 where
  pub in_use : Bool
  pub isolate_id : ℕ
  pub pid : ℕ
  pub comm_fd : Option ℕ
  pub alive : Bool

pub record Isolates : Type 0 where
  pub slots : ℕ → IsolateEntry
  pub generation : ℕ → ℕ
  pub next_slot : ℕ
  pub closed : List ℕ

abbrev pub no_isolate : IsolateEntry
no_isolate = record { in_use = false; isolate_id = 0; pid = 0; comm_fd = none; alive = false }

abbrev pub isolates_init : Isolates
isolates_init = record { slots = λ _. no_isolate; generation = λ _. 0; next_slot = 1; closed = [] }

unfoldable pub take_isolate : Isolates → ℕ → Option ℕ → Option ℕ → Result ℕ × Isolates
take_isolate t pid fd none = (err enospc, t)
take_isolate t pid fd (some s) =
    let gen = after_gen (t.generation s) in
    let e : IsolateEntry = record {
      in_use = true;
      isolate_id = id_pack gen s;
      pid = pid;
      comm_fd = fd;
      alive = true;
    } in
    (
      ok (id_pack gen s),
      record t {
        slots = update t.slots s e;
        generation = update t.generation s gen;
        next_slot = after_slot max_isolates s;
      },
    )

unfoldable pub isolate_alloc : Isolates → ℕ → Option ℕ → Result ℕ × Isolates
unfolding take_isolate
isolate_alloc t pid fd =
    take_isolate t pid fd (search max_isolates (λ s. (t.slots s).in_use) t.next_slot 0 max_isolates)

unfoldable pub isolate_lookup : Isolates → ℕ → Option ℕ
isolate_lookup t id =
    let s = id_slot id in
    if s == 0 || leb max_isolates s
    then none
    else if not (t.slots s).in_use || not ((t.slots s).isolate_id == id)
    then none
    else some s

unfoldable pub mark_dead : Isolates → ℕ → Result (Unit {0}) × Isolates
unfolding isolate_lookup
mark_dead t id = elim (isolate_lookup t id) [
  | none ↦ (err enoent, t)
  | some s ↦ (ok tt, record t { slots = update t.slots s (record (t.slots s) { alive = false }) })
]

unfoldable pub isolate_close : Isolates → ℕ → Result (Unit {0}) × Isolates
unfolding isolate_lookup
isolate_close t id = elim (isolate_lookup t id) [
  | none ↦ (err enoent, t)
  | some s ↦ (
    ok tt,
    record t {
      slots = update t.slots s no_isolate;
      closed = close_fd (t.slots s).comm_fd t.closed;
    },
  )
]

pub record Link : Type 0 where
  pub isolate_id : ℕ
  pub handle_id : ℕ
  pub fd_on_isolate : ℕ

-- The test of the loops over the entries, where `none` is an entry that is not in use.
abbrev pub is_link : ℕ → ℕ → Option Link → Bool
is_link iso hnd none = false
is_link iso hnd (some l) = l.isolate_id == iso && l.handle_id == hnd

unfoldable pub linked : ℕ → ℕ → List (Option Link) → Bool
linked iso hnd [] = false
linked iso hnd (e ∷ es) = is_link iso hnd e || linked iso hnd es

-- The first entry that is not in use is written; `none` is that there is none.
unfoldable pub fill_first : Link → List (Option Link) → Option (List (Option Link))
fill_first l [] = none
fill_first l (none ∷ es) = some (some l ∷ es)
fill_first l (some x ∷ es) = elim (fill_first l es) [
  | none ↦ none
  | some rest ↦ some (some x ∷ rest)
]

abbrev pub filled :
    List (Option Link) → Option (List (Option Link)) → Result (Unit {0}) × List (Option Link)
filled es none = (err enospc, es)
filled es (some us) = (ok tt, us)

-- A negative descriptor is `none`.
unfoldable pub link : List (Option Link) → ℕ → ℕ → Option ℕ → Result (Unit {0}) × List (Option Link)
link es iso hnd none = (err einval, es)
link es iso hnd (some fd) =
    if linked iso hnd es
    then (err eexist, es)
    else filled es
        (fill_first (record { isolate_id = iso; handle_id = hnd; fd_on_isolate = fd }) es)

unfoldable pub unlink : List (Option Link) → ℕ → ℕ → Result (Unit {0}) × List (Option Link)
unlink [] iso hnd = (err enoent, [])
unlink (e ∷ es) iso hnd =
    let (r, rest) = unlink es iso hnd in
    if is_link iso hnd e then (ok tt, none ∷ es) else (r, e ∷ rest)

unfoldable pub lookup_fd : List (Option Link) → ℕ → ℕ → Result ℕ
lookup_fd [] iso hnd = err enoent
lookup_fd (none ∷ es) iso hnd = lookup_fd es iso hnd
lookup_fd (some l ∷ es) iso hnd =
    if l.isolate_id == iso && l.handle_id == hnd then ok l.fd_on_isolate else lookup_fd es iso hnd

abbrev pub of_handle : ℕ → Option Link → ℕ
of_handle hnd none = 0
of_handle hnd (some l) = if l.handle_id == hnd then 1 else 0

unfoldable pub count_for_handle : List (Option Link) → ℕ → ℕ
count_for_handle [] hnd = 0
count_for_handle (e ∷ es) hnd = of_handle hnd e + count_for_handle es hnd
