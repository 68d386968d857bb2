-- ===== src/Handle/Examples.antt =====
-- The handle table at concrete inputs.
use nvkvm_pv.Base.{◌≡◌, refl, true, none, some, [], ◌∷◌, update, arith}
use nvkvm_pv.Base.Results.{ok, err, ebadf, ebusy, einval}
use nvkvm_pv.Handle.Os.{
  Os, chr, Handle, Table, nvidia_dev, cleared, table_init, attach_fd_matches_dev,
}
use nvkvm_pv.Handle.Alloc.{alloc_pending, scan}
use nvkvm_pv.Handle.Life.{attach_fd, acquire_fd_ref_isolate, close}
use nvkvm_pv.Handle.Session.{close_session}
use nvkvm_pv.Handle.Inv.{IsValid}
use nvkvm_pv.Handle.Runs.{run, pends, commits, closes, closes_session}
use nvkvm_pv.Handle.Epochs.{run-table_init-IsValid}
use nvkvm_pv.Handle.Teardown.{torn, handles-close_session}
use nvkvm_pv.Handle.Reuse.{Reserved, alloc_pending_lem}
use nvkvm_pv.Handle.Pins.{acquire-protects}
use nvkvm_pv.Handle.Attach.{Attached, reused, attach_fd-Attached, attach_fd_race}

-- Descriptor 5 is /dev/nvidiactl; every dup is descriptor 40.
abbrev os_five : Os
os_five = record {
  eventfd = ok 3;
  open_dev = λ _ _. ok 4;
  memfd_create = ok 6;
  ftruncate = λ _ _. ok tt;
  dup = λ _. some 40;
  fstat = λ _. some (record { kind = chr; rdev = 255 });
  stat = λ _. some (record { kind = chr; rdev = 255 });
  render_path = λ _. none;
}

-- Session 7 holds an open handle 1, which its last operation gave out.
abbrev open_handle : Handle
open_handle = record cleared {
  id = 1;
  generation = 1;
  kind = nvidia_dev;
  fd = some 9;
  session_id = 7;
  in_use = true;
}

abbrev one : Table
one = record {
  handles = update (λ _. cleared) 1 open_handle;
  next_id = 2;
  next_generation = 2;
  closed = [];
}

-- The same with handle 1 pending, the search come round to it.
abbrev pending_one : Table
pending_one = record one {
  handles = update (λ _. cleared) 1 (record open_handle { fd = none });
  next_id = 1;
}

one-IsValid : IsValid one
one-IsValid = record {
  next = omega arith;
  epoch = omega arith;
  ids = λ i h. ground arith;
  epochs = λ i h. ground arith;
  epochs_ne = λ i j n h k. ground arith;
  sizes = λ i h. ground arith;
}

pending_one-IsValid : IsValid pending_one
pending_one-IsValid = record {
  next = omega arith;
  epoch = omega arith;
  ids = λ i h. ground arith;
  epochs = λ i h. ground arith;
  epochs_ne = λ i j n h k. ground arith;
  sizes = λ i h. ground arith;
}

run-table_init-IsValid_example :
    IsValid (run table_init (pends 7 0 ∷ commits 1 5 ∷ closes 1 ∷ closes_session 7 ∷ []))
run-table_init-IsValid_example =
    run-table_init-IsValid (pends 7 0 ∷ commits 1 5 ∷ closes 1 ∷ closes_session 7 ∷ [])
      (omega arith)

alloc_pending_lem_example : Reserved one 7 0 2 (alloc_pending one 7 0).1
unfolding alloc_pending scan
alloc_pending_lem_example = (alloc_pending_lem one 7 0 one-IsValid).0 2 refl

handles-close_session_example : (close_session one 7).handles 1 ≡ torn 7 open_handle
handles-close_session_example = handles-close_session one 7 1 (omega arith) (omega arith)

acquire-protects_example :
    close (acquire_fd_ref_isolate os_five one 1).1 1
    ≡ (err ebusy, (acquire_fd_ref_isolate os_five one 1).1)
unfolding acquire_fd_ref_isolate
acquire-protects_example =
    (acquire-protects os_five one 1 7 (record { dup_fd = some 40; device = 0; epoch = 1 }) refl
      (omega arith)).0

attach_fd-Attached_example :
    Attached os_five pending_one pending_one 1 5
      (attach_fd os_five (λ t. t) pending_one 1 (some 5)).1
unfolding attach_fd attach_fd_matches_dev
attach_fd-Attached_example = attach_fd-Attached os_five (λ t. t) pending_one 1 5 refl

attach_fd_race_example :
    ((attach_fd os_five (reused 1 8 16) pending_one 1 (some 5)).1.handles 1).dev_id ≡ 16
unfolding attach_fd_matches_dev
attach_fd_race_example =
    (attach_fd_race os_five pending_one 1 5 8 16 pending_one-IsValid refl refl refl refl).1

-- A wrong device, a descriptor that is none, and a second attach.
attach_fd_refusals :
    ((attach_fd os_five (λ t. t) pending_one 1 none).0 ≡ err einval)
    × ((attach_fd os_five (λ t. t) pending_one 2 (some 5)).0 ≡ err ebadf)
    × ((attach_fd (record os_five { fstat = λ _. none }) (λ t. t) pending_one 1 (some 5)).0
        ≡ err ebadf)
unfolding attach_fd attach_fd_matches_dev
attach_fd_refusals = (refl, refl, refl)
