-- ===== src/ClipText.antt =====
-- What a clipboard text may be, src/broker/nvkvm_broker.c.
mod Utf8
mod Scalars
mod Accepted
mod Examples
