-- ===== src/Handle.antt =====
-- The global table of device and memory handles, src/qemu/nvkvm_handle.{c,h}. The table is fixed
-- in size; an `int` descriptor is `none` where the code has a negative one. The lock is not
-- modelled: each function here is one critical section, and where a function drops the lock what
-- other threads do meanwhile is an argument.
mod Os
mod Alloc
mod Life
mod Session
mod Scan
mod Inv
mod Keep
mod Runs
mod Epochs
mod Examples
mod Attach
mod Pins
mod Reuse
mod Teardown
pub use Os.*
pub use Alloc.*
pub use Life.*
pub use Session.*
